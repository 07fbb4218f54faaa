-- ===== src/Network/Pool.antt =====
-- `conn_pool` of server/src/network/server.cpp: each connection at its descriptor.
use redis_like.Network.Connection.{Conntion}
use redis_like.Network.Server.{Pollfd, Pool, pollfds_of, resize, add_conn, conn_at}
use redis_like.Prelude.{
  ℕ, zero, suc, ◌+◌, ◌-◌, ◌≤◌, ◌==◌, leb, true, Option, none, some, List, [], ◌∷◌, ◌++◌, ◌≡◌, ◌≢◌,
  inl, inr, refl, sym, ap, ◌∙◌, arith, length, get_elem?, set, replicate, All, ok, Returns, ℤ, pos,
  pos_part, Bool-cases, if◌then◌else◌,
}

get_elem?-set-same :
    {A : Type 0} (xs : List A) (i : ℕ) (x v : A)
    → get_elem? xs i ≡ some x
    → get_elem? (set xs i v) i ≡ some v
get_elem?-set-same [] i x v e = absurd cc
get_elem?-set-same (y ∷ xs) zero x v e = refl
get_elem?-set-same (y ∷ xs) (suc i) x v e = get_elem?-set-same xs i x v e

get_elem?-set-other :
    {A : Type 0} (xs : List A) (i j : ℕ) (v : A) → i ≢ j → get_elem? (set xs i v) j ≡ get_elem? xs j
get_elem?-set-other [] i j v ne = refl
get_elem?-set-other (y ∷ xs) zero zero v ne = absurd (ne refl)
get_elem?-set-other (y ∷ xs) zero (suc j) v ne = refl
get_elem?-set-other (y ∷ xs) (suc i) zero v ne = refl
get_elem?-set-other (y ∷ xs) (suc i) (suc j) v ne =
    get_elem?-set-other xs i j v (λ e. ne (ap suc e))

get_elem?-set :
    {A : Type 0} (xs : List A) (i : ℕ) (v x : A) → get_elem? (set xs i v) i ≡ some x → v ≡ x
get_elem?-set [] i v x e = absurd cc
get_elem?-set (y ∷ xs) zero v x e = cc
get_elem?-set (y ∷ xs) (suc i) v x e = get_elem?-set xs i v x e

pub set_same :
    {A : Type 0} (xs : List A) (i : ℕ) (x : A) → get_elem? xs i ≡ some x → set xs i x ≡ xs
set_same [] i x e = refl
set_same (y ∷ xs) zero x e = (let same : y ≡ x = cc in ap (λ w. w ∷ xs) (sym same))
set_same (y ∷ xs) (suc i) x e = ap (λ w. y ∷ w) (set_same xs i x e)

-- Past the end of the pool stand null pointers.
get_elem?-resize :
    (pool : Pool) (n i : ℕ) (conn : Conntion)
    → get_elem? (pool ++ replicate n none) i ≡ some (some conn)
    → get_elem? pool i ≡ some (some conn)
get_elem?-resize [] zero i conn e = e
get_elem?-resize [] (suc n) zero conn e = absurd cc
get_elem?-resize [] (suc n) (suc i) conn e = get_elem?-resize [] n i conn e
get_elem?-resize (c ∷ pool) n zero conn e = e
get_elem?-resize (c ∷ pool) n (suc i) conn e = get_elem?-resize pool n i conn e

get_elem?-append :
    (pool more : Pool) (i : ℕ) (c : Option Conntion)
    → get_elem? pool i ≡ some c
    → get_elem? (pool ++ more) i ≡ some c
get_elem?-append [] more i c e = absurd cc
get_elem?-append (d ∷ pool) more zero c e = e
get_elem?-append (d ∷ pool) more (suc i) c e = get_elem?-append pool more i c e

-- The pool holds a connection at its descriptor.
abbrev pub At : Pool → ℕ → Conntion → Type 0
At pool i conn = get_elem? pool i ≡ some (some conn)

-- Every connection of the pool stands at its descriptor.
abbrev pub IsPool : Pool → Type 0
IsPool pool = (i : ℕ) (conn : Conntion) → At pool i conn → conn.fd ≡ pos i

-- No connection stands at the descriptor: the system gives none twice that is open.
abbrev pub IsFree : Pool → ℤ → Type 0
IsFree pool fd = (i : ℕ) (conn : Conntion) → fd ≡ pos i → At pool i conn → ⊥

-- What waits for its events: each descriptor once, with a connection in the pool.
abbrev pub Pending : Pool → List Pollfd → Type 0
Pending pool [] = Unit
Pending pool (p ∷ ps) =
    ((i : ℕ) × (p.fd ≡ pos i) × (conn : Conntion) × At pool i conn × All (λ q. q.fd ≢ pos i) ps)
    × Pending pool ps

-- A change at another descriptor.
pub Pending-set :
    (pool : Pool) (i : ℕ) (c : Option Conntion) (ps : List Pollfd)
    → All (λ q. q.fd ≢ pos i) ps
    → Pending pool ps
    → Pending (set pool i c) ps
Pending-set pool i c [] k w = tt
Pending-set pool i c (p ∷ ps) (ne, k) ((j, fd, conn, at, apart), w) = (
  (j, fd, conn, get_elem?-set-other pool i j c (λ e. ne (fd ∙ ap pos (sym e))) ∙ at, apart),
  Pending-set pool i c ps k w,
)

abbrev StartsAt : ℕ → Pollfd → Type 0
StartsAt k q = (i : ℕ) × (q.fd ≡ pos i) × (k ≤ i)

earlier : (ps : List Pollfd) (k : ℕ) → All (StartsAt (suc k)) ps → All (StartsAt k) ps
earlier [] k w = tt
earlier (p ∷ ps) k ((i, fd, le), w) = ((i, fd, omega arith), earlier ps k w)

apart_from : (ps : List Pollfd) (k : ℕ) → All (StartsAt (suc k)) ps → All (λ q. q.fd ≢ pos k) ps
apart_from [] k w = tt
apart_from (p ∷ ps) k ((i, fd, le), w) =
    (λ e. let same : i ≡ k = ap pos_part (sym fd ∙ e) in omega arith, apart_from ps k w)

after_first :
    (pool : Pool) (c : Option Conntion) (xs : Pool) (k : ℕ)
    → ((i : ℕ) (conn : Conntion)
        → At (c ∷ xs) i conn
        → (conn.fd ≡ pos (k + i)) × At pool (k + i) conn)
    → (i : ℕ) (conn : Conntion) → At xs i conn
    → (conn.fd ≡ pos (suc k + i)) × At pool (suc k + i) conn
after_first pool c xs k h i conn at =
    let e : k + suc i ≡ suc k + i = omega arith in
    let (fd, there) = h (suc i) conn at in (fd ∙ ap pos e, sym (ap (get_elem? pool) e) ∙ there)

-- At the start of the loop.
pub Pending-pollfds_of :
    (pool xs : Pool) (k : ℕ)
    → ((i : ℕ) (conn : Conntion) → At xs i conn → (conn.fd ≡ pos (k + i)) × At pool (k + i) conn)
    → Pending pool (pollfds_of xs) × All (StartsAt k) (pollfds_of xs)
unfolding pollfds_of
Pending-pollfds_of pool [] k h = (tt, tt)
Pending-pollfds_of pool (none ∷ xs) k h =
    let (w, later) = Pending-pollfds_of pool xs (suc k) (after_first pool none xs k h) in
    (w, earlier (pollfds_of xs) k later)
Pending-pollfds_of pool (some conn ∷ xs) k h =
    let (w, later) = Pending-pollfds_of pool xs (suc k) (after_first pool (some conn) xs k h) in
    let (fd, at) = h 0 conn refl in
    let e : k + 0 ≡ k = omega arith in
    (
      (
        (
          k,
          fd ∙ ap pos e,
          conn,
          sym (ap (get_elem? pool) e) ∙ at,
          apart_from (pollfds_of xs) k later,
        ),
        w,
      ),
      ((k, fd ∙ ap pos e, omega arith), earlier (pollfds_of xs) k later),
    )

pub IsPool-set :
    (pool : Pool) (i : ℕ) (c : Option Conntion)
    → IsPool pool
    → ((conn : Conntion) → c ≡ some conn → conn.fd ≡ pos i)
    → IsPool (set pool i c)
IsPool-set pool i c h new j conn at = elim (Bool-cases (i == j)) [
  | inl same ↦
      let e : j ≡ i = ground arith in
      let here : get_elem? (set pool i c) i ≡ some (some conn) =
        sym (ap (get_elem? (set pool i c)) e) ∙ at in
      new conn (get_elem?-set pool i c (some conn) here) ∙ ap pos (sym e)
  | inr apart ↦
      let ne : i ≢ j = λ e. let same : (i == j) ≡ true = rw e (ground arith) in cc in
      h j conn (sym (get_elem?-set-other pool i j c ne) ∙ at)
]

pub Pending-At :
    (pool pool' : Pool) (ps : List Pollfd)
    → ((i : ℕ) (conn : Conntion) → At pool i conn → At pool' i conn)
    → Pending pool ps
    → Pending pool' ps
Pending-At pool pool' [] h w = tt
Pending-At pool pool' (p ∷ ps) h ((i, fd, conn, at, apart), w) =
    ((i, fd, conn, h i conn at, apart), Pending-At pool pool' ps h w)

-- The pool with the new connection.
pub add_conn-IsPool :
    (pool : Pool) (conn : Conntion) (k : ℕ)
    → conn.fd ≡ pos k
    → IsPool pool
    → IsFree pool (pos k)
    → Returns
        (add_conn pool conn)
        λ pool'. IsPool pool' × ((i : ℕ) (c : Conntion) → At pool i c → At pool' i c)
unfolding add_conn
add_conn-IsPool pool conn k fd h free =
    let grown = if leb (length pool) k then resize pool (k + 1) else pool in
    (
      set grown k (some conn),
      rw fd refl,
      (
        IsPool-set grown k (some conn) larger
            (λ x e. let same : conn ≡ x = cc in ap (λ w. w.fd) (sym same) ∙ fd),
        λ i c at.
            get_elem?-set-other grown k i (some conn) (λ e. free i c (ap pos e) at) ∙ kept i c at,
      ),
    )
  where
    larger : IsPool (if leb (length pool) k then resize pool (k + 1) else pool)
    larger i c at = elim (Bool-cases (leb (length pool) k)) [
      | inl short ↦ h i c (get_elem?-resize pool (k + 1 - length pool) i c (rw short at at))
      | inr long ↦ h i c (rw long at at)
    ]

    kept :
        (i : ℕ) (c : Conntion)
        → At pool i c
        → At (if leb (length pool) k then resize pool (k + 1) else pool) i c
    kept i c at = elim (Bool-cases (leb (length pool) k)) [
      | inl short ↦
          rw short (get_elem?-append pool (replicate (k + 1 - length pool) none) i (some c) at)
      | inr long ↦ rw long at
    ]

pub conn_at-At :
    (pool : Pool) (i : ℕ) (conn : Conntion) → At pool i conn → conn_at pool (pos i) ≡ ok conn
unfolding conn_at
conn_at-At pool i conn at = rw (conn_at, at) refl
