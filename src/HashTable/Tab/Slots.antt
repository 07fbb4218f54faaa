-- ===== src/HashTable/Tab/Slots.antt =====
-- An array of chains: how many nodes of it pass a test, and what a write to one slot changes.
use redis_like.HashTable.Tab.{HNode, Chain}
use redis_like.Prelude.{
  ℕ, zero, suc, ◌+◌, ◌≤◌, ◌<◌, ◌==◌, Bool, true, false, ◌&&◌, some, List, [], ◌∷◌, ◌≡◌, ◌≢◌, refl,
  arith, length, get_elem?, get_or, set, replicate, count, All,
}

-- The same node.
abbrev pub is : HNode → HNode → Bool
is n m = (n.hcode == m.hcode) && (n.object == m.object)

-- A node that `h_lookup` stops at: the hash code is compared first.
abbrev pub matches : ℕ → (HNode → Bool) → HNode → Bool
matches hcode same n = (n.hcode == hcode) && same n

-- How many nodes of the array pass a test.
abbrev pub total : (HNode → Bool) → List Chain → ℕ
total p [] = 0
total p (c ∷ slots) = count p c + total p slots

pub is_refl : (n : HNode) → is n n ≡ true
is_refl n = ground arith

pub eq_of_is : (n m : HNode) → is n m ≡ true → n ≡ m
eq_of_is n m h = ground arith

pub total-set :
    (p : HNode → Bool) (slots : List Chain) (i : ℕ) (c : Chain)
    → i < length slots
    → total p (set slots i c) + count p (get_or slots i []) ≡ total p slots + count p c
total-set p [] i c h = elim h [ ]
total-set p (d ∷ slots) zero c h = omega arith
total-set p (d ∷ slots) (suc i) c h = omega (arith, total-set p slots i c (omega arith))

pub count-le-total :
    (p : HNode → Bool) (slots : List Chain) (i : ℕ) → count p (get_or slots i []) ≤ total p slots
count-le-total p [] i = omega arith
count-le-total p (d ∷ slots) zero = omega arith
count-le-total p (d ∷ slots) (suc i) = omega (arith, count-le-total p slots i)

pub total_nowhere :
    (p : HNode → Bool) (slots : List Chain)
    → ((i : ℕ) → count p (get_or slots i []) ≡ 0)
    → total p slots ≡ 0
total_nowhere p [] h = refl
total_nowhere p (c ∷ slots) h = omega (arith, h 0, total_nowhere p slots (λ i. h (suc i)))

pub total_only :
    (p : HNode → Bool) (slots : List Chain) (i : ℕ)
    → ((j : ℕ) → j ≢ i → count p (get_or slots j []) ≡ 0)
    → total p slots ≡ count p (get_or slots i [])
total_only p [] i h = refl
total_only p (c ∷ slots) zero h =
    omega (arith, total_nowhere p slots (λ j. h (suc j) (omega arith)))
total_only p (c ∷ slots) (suc i) h =
    omega (arith, h 0 (omega arith), total_only p slots i (λ j n. h (suc j) (omega arith)))

pub total-replicate : (p : HNode → Bool) (n : ℕ) → total p (replicate n []) ≡ 0
total-replicate p zero = refl
total-replicate p (suc n) = omega (arith, total-replicate p n)

pub get_or-replicate : (n i : ℕ) → get_or {A = Chain} (replicate n []) i [] ≡ []
get_or-replicate zero i = refl
get_or-replicate (suc n) zero = refl
get_or-replicate (suc n) (suc i) = get_or-replicate n i

pub get_or-set_self :
    (slots : List Chain) (i : ℕ) (c : Chain) → i < length slots → get_or (set slots i c) i [] ≡ c
get_or-set_self [] i c h = elim h [ ]
get_or-set_self (d ∷ slots) zero c h = refl
get_or-set_self (d ∷ slots) (suc i) c h = get_or-set_self slots i c (omega arith)

pub get_or-set_ne :
    (slots : List Chain) (i j : ℕ) (c : Chain)
    → i ≢ j
    → get_or (set slots i c) j [] ≡ get_or slots j []
get_or-set_ne [] i j c h = refl
get_or-set_ne (d ∷ slots) zero zero c h = absurd (h refl)
get_or-set_ne (d ∷ slots) zero (suc j) c h = refl
get_or-set_ne (d ∷ slots) (suc i) zero c h = refl
get_or-set_ne (d ∷ slots) (suc i) (suc j) c h = get_or-set_ne slots i j c (λ e. h (omega arith))

-- What holds of every node that a chain counts holds along the chain, and the other way round.
pub All-of_count {ℓ} :
    (P : HNode → Type ℓ) (c : Chain) → ((n : HNode) → 1 ≤ count (is n) c → P n) → All P c
All-of_count P [] h = tt
All-of_count P (m ∷ c) h =
    (h m (ground (arith, is_refl m)), All-of_count P c (λ n k. h n (omega arith)))

pub count_nowhere : (p : HNode → Bool) (c : Chain) → All (λ n. p n ≡ false) c → count p c ≡ 0
count_nowhere p [] h = refl
count_nowhere p (n ∷ c) (a, h) = ground (arith, count_nowhere p c h)

pub All-map {ℓ κ} :
    {P : HNode → Type ℓ} {Q : HNode → Type κ} (f : (n : HNode) → P n → Q n) (c : Chain)
    → All P c
    → All Q c
All-map f [] h = tt
All-map f (n ∷ c) (a, h) = (f n a, All-map f c h)

pub get_elem?-All {ℓ} :
    (P : HNode → Type ℓ) (c : Chain) (j : ℕ) (n : HNode) → get_elem? c j ≡ some n → All P c → P n
get_elem?-All P [] j n e h = cc
get_elem?-All P (m ∷ c) zero n e (a, h) = let same : m ≡ n = cc in rw same at a
get_elem?-All P (m ∷ c) (suc j) n e (a, h) = get_elem?-All P c j n e h

pub count-get_elem? :
    (p : HNode → Bool) (c : Chain) (j : ℕ) (n : HNode)
    → get_elem? c j ≡ some n
    → p n ≡ true
    → 1 ≤ count p c
count-get_elem? p [] j n e h = cc
count-get_elem? p (m ∷ c) zero n e h = ground arith
count-get_elem? p (m ∷ c) (suc j) n e h = omega (arith, count-get_elem? p c j n e h)

count-le-true : (p : HNode → Bool) (c : Chain) → count p c ≤ count (λ _. true) c
count-le-true p [] = omega arith
count-le-true p (n ∷ c) = ground (arith, count-le-true p c)

pub total-le-true :
    (p : HNode → Bool) (slots : List Chain) → total p slots ≤ total (λ _. true) slots
total-le-true p [] = omega arith
total-le-true p (c ∷ slots) = omega (arith, count-le-true p c, total-le-true p slots)
