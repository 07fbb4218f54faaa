-- ===== src/Store/Contents.antt =====
-- What a hash table of server/src/data_structures/string.cpp and zset.cpp holds, with the chains and
-- the addresses forgotten: a key and its object.
pub mod Same
pub mod Free
pub mod Write
pub mod Find
use mathlib.Core.Option.{some-injective}
use redis_like.HashTable.Map.{HMap}
use redis_like.HashTable.Map.Valid.{tally, Contains, IsValid}
use redis_like.HashTable.Tab.{HNode, Chain}
use redis_like.HashTable.Tab.Slots.{is, total, is_refl, eq_of_is}
use redis_like.HashTable.Tab.Ready.{slots_of}
use redis_like.Store.Objects.{Bytes, Table, Keyed, hash, same_bytes}
use redis_like.Prelude.{
  ◌+◌, ◌≤◌, ◌<◌, Bool, true, false, Option, none, some, List, [], ◌∷◌, ◌≡◌, refl, sym, ◌∙◌, ◌⊎◌,
  arith, ap, count, one_if, Bool-cases, inl, inr,
}

pub same_bytes_refl : (s : Bytes) → same_bytes s s ≡ true
unfolding same_bytes
same_bytes_refl [] = refl
same_bytes_refl (b ∷ s) = ground (arith, same_bytes_refl s)

pub eq_of_same_bytes : (s t : Bytes) → same_bytes s t ≡ true → s ≡ t
unfolding same_bytes
eq_of_same_bytes [] [] h = refl
eq_of_same_bytes [] (b ∷ t) h = cc
eq_of_same_bytes (a ∷ s) [] h = cc
eq_of_same_bytes (a ∷ s) (b ∷ t) h =
    let first : a ≡ b = ground arith in
    let rest : same_bytes s t ≡ true = ground arith in rw (first, eq_of_same_bytes s t rest) refl

-- Two disjoint tests count no more than what they both imply.
count-disjoint :
    (p q r : HNode → Bool)
    → ((n : HNode) → one_if (p n) + one_if (q n) ≤ one_if (r n))
    → (c : Chain) → count p c + count q c ≤ count r c
count-disjoint p q r h [] = omega arith
count-disjoint p q r h (n ∷ c) = omega (arith, h n, count-disjoint p q r h c)

total-disjoint :
    (p q r : HNode → Bool)
    → ((n : HNode) → one_if (p n) + one_if (q n) ≤ one_if (r n))
    → (slots : List Chain) → total p slots + total q slots ≤ total r slots
total-disjoint p q r h [] = omega arith
total-disjoint p q r h (c ∷ slots) =
    omega (arith, count-disjoint p q r h c, total-disjoint p q r h slots)

pub tally-disjoint :
    (m : HMap) (p q r : HNode → Bool)
    → ((n : HNode) → one_if (p n) + one_if (q n) ≤ one_if (r n))
    → tally m p + tally m q ≤ tally m r
tally-disjoint m p q r h = omega (
  arith,
  total-disjoint p q r h (slots_of m.new_tab),
  total-disjoint p q r h (slots_of m.old_tab),
)

pub tally-false : (m : HMap) → tally m (λ _. false) ≡ 0
tally-false m =
    omega (arith, tally-disjoint m (λ _. false) (λ _. false) (λ _. false) (λ n. omega arith))

-- A test that implies another, on the nodes that are there, counts no more.
count-le :
    (p q : HNode → Bool) (c : Chain)
    → ((n : HNode) → 1 ≤ count (is n) c → p n ≡ true → q n ≡ true)
    → count p c ≤ count q c
count-le p q [] h = omega arith
count-le p q (n ∷ c) h =
    let rest = count-le p q c (λ m k. h m (omega arith)) in
    elim (Bool-cases (p n)) [
      | inl yes_p ↦
          let yes_q : q n ≡ true = h n (rw (is_refl n) (omega arith)) yes_p in
          rw (yes_p, yes_q) (omega arith)
      | inr no_p ↦ rw no_p (omega arith)
    ]

total-le :
    (p q : HNode → Bool) (slots : List Chain)
    → ((n : HNode) → 1 ≤ total (is n) slots → p n ≡ true → q n ≡ true)
    → total p slots ≤ total q slots
total-le p q [] h = omega arith
total-le p q (c ∷ slots) h = omega (
  arith,
  count-le p q c (λ n k. h n (omega arith)),
  total-le p q slots (λ n k. h n (omega arith)),
)

pub tally-le :
    (m : HMap) (p q : HNode → Bool)
    → ((n : HNode) → Contains m n → p n ≡ true → q n ≡ true)
    → tally m p ≤ tally m q
tally-le m p q h = omega (
  arith,
  total-le p q (slots_of m.new_tab) (λ n k. h n (omega arith)),
  total-le p q (slots_of m.old_tab) (λ n k. h n (omega arith)),
)

-- Two nodes that pass a test are two of those that do.
pub once_each :
    (p : HNode → Bool) (a b n : HNode)
    → p a ≡ true
    → p b ≡ true
    → is a b ≡ false
    → one_if (is a n) + one_if (is b n) ≤ one_if (p n)
once_each p a b n pa pb apart = elim (Bool-cases (is a n)) [
  | inl first ↦
      let e = eq_of_is a n first in
      let off : is b n ≡ false = rw (← e) (ground arith) in
      let here : p n ≡ true = rw (← e) pa in rw (first, off, here) (omega arith)
  | inr miss ↦ elim (Bool-cases (is b n)) [
    | inl second ↦
        let here : p n ≡ true = rw (← eq_of_is b n second) pb in
        rw (miss, second, here) (omega arith)
    | inr miss' ↦ rw (miss, miss') (omega arith)
  ]
]

module _ {A : Type 0} ⦃keys : Keyed A⦄ where
  abbrev pub has_key : Option (A) → Bytes → Bool
  has_key none key = false
  has_key (some o) key = same_bytes (keys.key_of o) key

  -- The node's object has the key.
  abbrev pub keyed : Table A → Bytes → HNode → Bool
  keyed db key n = has_key (db.objects n.object) key

  -- Every node is in a live object, under the hash of its key; every key is there once at most.
  pub record IsLive (db : Table A) : Type 0 where
    pub valid : IsValid db.hmap
    pub live :
        (n : HNode)
        → Contains db.hmap n
        → (o : A) × (db.objects n.object ≡ some o) × (n.hcode ≡ hash (keys.key_of o))
    pub below : (n : HNode) → Contains db.hmap n → n.object < db.next
    pub once : (key : Bytes) → tally db.hmap (keyed db key) ≤ 1

  -- The database holds an object under a key.
  pub record Holds (db : Table A) (key : Bytes) (o : A) : Type 0 where
    pub hook : HNode
    pub inside : Contains db.hmap hook
    pub stands : db.objects hook.object ≡ some o
    pub named : keys.key_of o ≡ key

  -- A node of the table, with what it says.
  pub hold_of :
      (db : Table A) (n : HNode)
      → IsLive db
      → Contains db.hmap n
      → (o : A) × (db.objects n.object ≡ some o)
        × (n.hcode ≡ hash (keys.key_of o))
        × Holds db (keys.key_of o) o
  hold_of db n l k =
      let (o, at, h) = l.live n k in
      (o, at, h, record { hook = n; inside = k; stands = at; named = refl })

  pub keyed-Holds :
      (db : Table A) (key : Bytes) (o : A) (x : Holds db key o) → keyed db key x.hook ≡ true
  keyed-Holds db key o x = rw (x.stands, x.named) (same_bytes_refl key)

  -- What is held is counted.
  pub tally-Holds :
      (db : Table A) (key : Bytes) (o : A) → Holds db key o → 1 ≤ tally db.hmap (keyed db key)
  tally-Holds db key o x = omega (
    arith,
    x.inside,
    tally-le db.hmap (is x.hook) (keyed db key)
        (λ n _ h. rw (← eq_of_is x.hook n h) (keyed-Holds db key o x)),
  )

  -- A key has one node.
  pub Holds-hook :
      (db : Table A) (key : Bytes) (a b : A) (x : Holds db key a) (y : Holds db key b)
      → IsLive db
      → x.hook ≡ y.hook
  Holds-hook db key a b x y l = elim (Bool-cases (is x.hook y.hook)) [
    | inl same ↦ eq_of_is x.hook y.hook same
    | inr apart ↦ absurd (
        omega (
          arith,
          l.once key,
          x.inside,
          y.inside,
          tally-disjoint db.hmap (is x.hook) (is y.hook) (keyed db key) (λ n.
              once_each (keyed db key) x.hook y.hook n (keyed-Holds db key a x)
                (keyed-Holds db key b y) apart),
        ))
  ]

  -- A key has one object.
  pub Holds-unique :
      (db : Table A) (key : Bytes) (a b : A) → IsLive db → Holds db key a → Holds db key b → a ≡ b
  Holds-unique db key a b l x y =
      let e = Holds-hook db key a b x y l in
      some-injective a b (sym x.stands ∙ ap (λ n. db.objects n.object) e ∙ y.stands)
