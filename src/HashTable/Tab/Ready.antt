-- ===== src/HashTable/Tab/Ready.antt =====
-- What holds of an allocated table between operations, and the two loops over a chain.
use redis_like.HashTable.Tab.{HNode, Chain, HTab, new_table, get_pos, scan, remove_at}
use redis_like.HashTable.Tab.Slots.{matches, total, total-replicate, get_or-replicate}
use redis_like.Prelude.Bits.{IsPowerOfTwo, bit_and-le, bit_and-pred, one-le-IsPowerOfTwo}
use redis_like.Prelude.{
  ℕ, zero, suc, ◌+◌, ◌-◌, ◌<◌, ◌==◌, Bool, true, false, Option, none, some, List, [], ◌∷◌, ◌≡◌,
  refl, inl, inr, arith, length, get_elem?, get_or, replicate, bit_and, count, one_if, All, Run, ok,
  Returns, Bool-cases, ==_iff, length-replicate,
}

-- The slots behind the pointer.
abbrev pub slots_in : Option (List Chain) → List Chain
slots_in none = []
slots_in (some slots) = slots

abbrev pub slots_of : HTab → List Chain
slots_of t = slots_in t.tab

-- Every node stands in the slot of its hash code.
abbrev pub IsPlaced : ℕ → List Chain → Type 0
IsPlaced mask slots = (i : ℕ) → All (λ n. bit_and n.hcode mask ≡ i) (get_or slots i [])

pub record IsReady (t : HTab) : Type 0 where
  pub allocated : t.tab ≡ some (slots_of t)
  pub wide : length (slots_of t) ≡ t.mask + 1
  pub power : IsPowerOfTwo (t.mask + 1)
  pub counted : t.size ≡ total (λ _. true) (slots_of t)
  pub placed : IsPlaced t.mask (slots_of t)

-- A power of two makes an empty table.
pub new_table-IsReady :
    (n : ℕ)
    → IsPowerOfTwo n
    → Returns
        (new_table n)
        λ t. IsReady t × (t.mask + 1 ≡ n) × ((p : HNode → Bool) → total p (slots_of t) ≡ 0)
unfolding new_table
new_table-IsReady n h =
    let pos = one-le-IsPowerOfTwo n h in
    let back : n - 1 + 1 ≡ n = omega arith in
    let nonzero : (n == 0) ≡ false = ground arith in
    (
      record { tab = some (replicate n []); mask = n - 1; size = 0 },
      rw (nonzero, bit_and-pred n h) refl,
      (
        record {
          allocated = refl;
          wide = rw (length-replicate, back);
          power = rw back h;
          counted = omega (arith, total-replicate (λ _. true) n);
          placed = λ i. rw (get_or-replicate n i) tt;
        },
        back,
        λ p. total-replicate p n,
      ),
    )

-- The slot of a hash code is in range.
pub get_pos-lt : (t : HTab) (h : ℕ) → IsReady t → get_pos t h < length (slots_of t)
unfolding get_pos
get_pos-lt t h r = omega (arith, bit_and-le h t.mask, r.wide)

-- `eq` is defined on the nodes with the hash code, and answers `same` there.
abbrev pub Answers : ℕ → (HNode → Run Bool) → (HNode → Bool) → HNode → Type 0
Answers h eq same n = n.hcode ≡ h → eq n ≡ ok (same n)

-- What a scan of the chain may answer: no node matches, or the position of one that does.
pub data Scanned (h : ℕ) (same : HNode → Bool) (c : Chain) (i : ℕ) : Option ℕ → Type 0 where
  missed : count (matches h same) c ≡ 0 → Scanned h same c i none
  hit :
      (j : ℕ) (n : HNode)
      → get_elem? c j ≡ some n
      → matches h same n ≡ true
      → Scanned h same c i (some (i + j))

Scanned-later :
    (h : ℕ) (same : HNode → Bool) (n : HNode) (c : Chain) (i : ℕ) (r : Option ℕ)
    → matches h same n ≡ false
    → Scanned h same c (i + 1) r
    → Scanned h same (n ∷ c) i r
Scanned-later h same n c i none off (missed z) = missed (ground arith)
Scanned-later h same n c i (some _) off (hit j m e k) =
    let shift : i + 1 + j ≡ i + suc j = omega arith in rw shift (hit (suc j) m e k)

pub scan-Scanned :
    (h : ℕ) (eq : HNode → Run Bool) (same : HNode → Bool) (c : Chain) (i : ℕ)
    → All (Answers h eq same) c
    → Returns (scan h eq c i) (Scanned h same c i)
unfolding scan
scan-Scanned h eq same [] i a = (none, refl, missed refl)
scan-Scanned h eq same (n ∷ c) i (a, rest) =
    let (r, run, s) = scan-Scanned h eq same c (i + 1) rest in
    elim (Bool-cases (n.hcode == h)) [
      | inr off ↦ (r, rw off run, Scanned-later h same n c i r (rw off) s)
      | inl code ↦
          let e = a ((==_iff n.hcode h).0 code) in
          elim (Bool-cases (same n)) [
            | inl found ↦
                let here : i + 0 ≡ i = omega arith in
                let w : Scanned h same (n ∷ c) i (some (i + 0)) = hit 0 n refl (rw (code, found)) in
                (some i, rw (code, e, found), rw here at w)
            | inr other ↦
                (r, rw (code, e, other) run, Scanned-later h same n c i r (rw (code, other)) s)
          ]
    ]

-- Taking a node out of a chain leaves the others.
pub remove_at-Returns {ℓ} :
    (P : HNode → Type ℓ) (c : Chain) (j : ℕ) (n : HNode)
    → get_elem? c j ≡ some n
    → All P c
    → Returns
        (remove_at c j)
        λ r. (r.0 ≡ n) × ((p : HNode → Bool) → count p c ≡ one_if (p n) + count p r.1) × All P r.1
unfolding remove_at
remove_at-Returns P [] j n e a = cc
remove_at-Returns P (m ∷ c) zero n e (a, rest) =
    let same : m ≡ n = cc in ((m, c), refl, (same, (λ p. rw same), rest))
remove_at-Returns P (m ∷ c) (suc j) n e (a, rest) =
    let ((n', c'), run, (same, counts, kept)) = remove_at-Returns P c j n e rest in
    ((n', m ∷ c'), rw run, (same, (λ p. omega (arith, counts p)), (a, kept)))
