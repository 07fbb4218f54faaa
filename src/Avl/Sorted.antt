-- ===== src/Avl/Sorted.antt =====
-- Sorted lists of objects: the contents of a search tree, with what an insertion and a removal mean.
use redis_like.Prelude.{
  ℕ, ◌≤◌, ◌==◌, if◌then◌else◌, Bool, true, false, List, [], ◌∷◌, ◌++◌, ◌≡◌, refl, ap, ◌⊎◌, inl, inr,
  arith, count, All, count-append, Bool-cases,
}

-- How often an object occurs.
abbrev pub occurs : ℕ → List ℕ → ℕ
occurs x xs = count (λ y. y == x) xs

-- The list without an object.
abbrev pub remove : ℕ → List ℕ → List ℕ
remove x [] = []
remove x (y ∷ ys) = if y == x then remove x ys else y ∷ remove x ys

-- The list with one object in the place of another.
abbrev pub substitute : ℕ → ℕ → List ℕ → List ℕ
substitute x z [] = []
substitute x z (y ∷ ys) = (if y == x then z else y) ∷ substitute x z ys

pub remove_absent : (x : ℕ) (xs : List ℕ) → occurs x xs ≡ 0 → remove x xs ≡ xs
remove_absent x [] h = refl
remove_absent x (y ∷ ys) h = ground (arith, remove_absent x ys)

pub remove-append : (x : ℕ) (a b : List ℕ) → remove x (a ++ b) ≡ remove x a ++ remove x b
remove-append x [] b = refl
remove-append x (y ∷ a) b = ground (arith, remove-append x a b)

-- An object that occurs once is removed from where it stands.
pub remove_once :
    (x : ℕ) (a b : List ℕ) → occurs x (a ++ (x ∷ b)) ≤ 1 → remove x (a ++ (x ∷ b)) ≡ a ++ b
remove_once x a b h =
    let counts = count-append (λ y. y == x) a (x ∷ b) in
    let here : (x == x) ≡ true = ground arith in
    let left : occurs x a ≡ 0 = ground (arith, counts) in
    let right : occurs x b ≡ 0 = ground (arith, counts) in
    rw (remove-append x a (x ∷ b), here, remove_absent x a left, remove_absent x b right) refl

pub substitute_absent : (x z : ℕ) (xs : List ℕ) → occurs x xs ≡ 0 → substitute x z xs ≡ xs
substitute_absent x z [] h = refl
substitute_absent x z (y ∷ ys) h = ground (arith, substitute_absent x z ys)

substitute-append :
    (x z : ℕ) (a b : List ℕ) → substitute x z (a ++ b) ≡ substitute x z a ++ substitute x z b
substitute-append x z [] b = refl
substitute-append x z (y ∷ a) b =
    ap (λ r. (if y == x then z else y) ∷ r) (substitute-append x z a b)

pub substitute_once :
    (x z : ℕ) (a b : List ℕ)
    → occurs x (a ++ (x ∷ b)) ≤ 1
    → substitute x z (a ++ (x ∷ b)) ≡ a ++ (z ∷ b)
substitute_once x z a b h =
    let counts = count-append (λ y. y == x) a (x ∷ b) in
    let here : (x == x) ≡ true = ground arith in
    let left : occurs x a ≡ 0 = ground (arith, counts) in
    let right : occurs x b ≡ 0 = ground (arith, counts) in
    rw
      (
        substitute-append x z a (x ∷ b),
        here,
        substitute_absent x z a left,
        substitute_absent x z b right,
      )
      refl

pub All-append : (P : ℕ → Type 0) (a b : List ℕ) → All P (a ++ b) → All P a × All P b
All-append P [] b h = (tt, h)
All-append P (x ∷ a) b (h, rest) = let (left, right) = All-append P a b rest in ((h, left), right)

pub All-remove : (P : ℕ → Type 0) (x : ℕ) (xs : List ℕ) → All P xs → All P (remove x xs)
All-remove P x [] h = tt
All-remove P x (y ∷ ys) (h, rest) = elim (Bool-cases (y == x)) [
  | inl same ↦ rw same (All-remove P x ys rest)
  | inr other ↦ rw other (h, All-remove P x ys rest)
]

module _ (less : ℕ → ℕ → Bool) where
  -- Each object is less than all that follow.
  abbrev pub IsSorted : List ℕ → Type 0
  IsSorted [] = Unit
  IsSorted (x ∷ xs) = All (λ y. less x y ≡ true) xs × IsSorted xs

  -- Before the first object that is greater.
  abbrev pub insert_sorted : ℕ → List ℕ → List ℕ
  insert_sorted x [] = x ∷ []
  insert_sorted x (y ∷ ys) = if less x y then x ∷ (y ∷ ys) else y ∷ insert_sorted x ys

  pub insert_sorted_lt :
      (x y : ℕ) (a b : List ℕ)
      → less x y ≡ true
      → insert_sorted x (a ++ (y ∷ b)) ≡ insert_sorted x a ++ (y ∷ b)
  insert_sorted_lt x y [] b h = rw h refl
  insert_sorted_lt x y (z ∷ a) b h = ground (arith, insert_sorted_lt x y a b h)

  pub insert_sorted_ge :
      (x : ℕ) (a b : List ℕ)
      → All (λ z. less x z ≡ false) a
      → insert_sorted x (a ++ b) ≡ a ++ insert_sorted x b
  insert_sorted_ge x [] b h = refl
  insert_sorted_ge x (z ∷ a) b (h, rest) = rw h (ap (λ r. z ∷ r) (insert_sorted_ge x a b rest))

  -- The parts of a sorted list, around one of its objects.
  pub IsSorted-append :
      (a b : List ℕ) (y : ℕ)
      → IsSorted (a ++ (y ∷ b))
      → All (λ z. less z y ≡ true) a × IsSorted a × IsSorted (y ∷ b)
  IsSorted-append [] b y s = (tt, tt, s)
  IsSorted-append (z ∷ a) b y (h, s) =
      let (below, left, right) = IsSorted-append a b y s in
      let (to_a, to_b) = All-append (λ w. less z w ≡ true) a (y ∷ b) h in
      ((to_b.0, below), (to_a, left), right)

  -- A removal keeps a list sorted.
  pub remove-IsSorted : (x : ℕ) (xs : List ℕ) → IsSorted xs → IsSorted (remove x xs)
  remove-IsSorted x [] s = tt
  remove-IsSorted x (y ∷ ys) (h, s) = elim (Bool-cases (y == x)) [
    | inl same ↦ rw same (remove-IsSorted x ys s)
    | inr other ↦ rw other (All-remove (λ z. less y z ≡ true) x ys h, remove-IsSorted x ys s)
  ]

  pub All-insert_sorted :
      (P : ℕ → Type 0) (x : ℕ) (xs : List ℕ) → P x → All P xs → All P (insert_sorted x xs)
  All-insert_sorted P x [] px h = (px, tt)
  All-insert_sorted P x (y ∷ ys) px (h, rest) = elim (Bool-cases (less x y)) [
    | inl lt ↦ rw lt (px, (h, rest))
    | inr ge ↦ rw ge (h, All-insert_sorted P x ys px rest)
  ]

  module _ (trans : (a b c : ℕ) → less a b ≡ true → less b c ≡ true → less a c ≡ true) where
    pub All-less :
        (x y : ℕ) (ys : List ℕ)
        → less x y ≡ true
        → All (λ z. less y z ≡ true) ys
        → All (λ z. less x z ≡ true) ys
    All-less x y [] h a = tt
    All-less x y (z ∷ ys) h (yz, a) = (trans x y z h yz, All-less x y ys h a)

    -- What is less than `y` is not greater than an `x` that `y` does not exceed.
    pub All-not_less :
        (x y : ℕ) (a : List ℕ)
        → less x y ≡ false
        → All (λ z. less z y ≡ true) a
        → All (λ z. less x z ≡ false) a
    All-not_less x y [] h k = tt
    All-not_less x y (z ∷ a) h (zy, k) = (ground (arith, trans x z y), All-not_less x y a h k)

    -- An insertion keeps a list sorted if the object compares with every other.
    pub insert_sorted-IsSorted :
        (x : ℕ) (xs : List ℕ)
        → IsSorted xs
        → All (λ y. (less x y ≡ true) ⊎ (less y x ≡ true)) xs
        → IsSorted (insert_sorted x xs)
    insert_sorted-IsSorted x [] s c = (tt, tt)
    insert_sorted-IsSorted x (y ∷ ys) (h, s) (here, rest) = elim (Bool-cases (less x y)) [
      | inl lt ↦ rw lt ((lt, All-less x y ys lt h), (h, s))
      | inr ge ↦
          let above : less y x ≡ true = ground arith in
          rw ge (
            All-insert_sorted (λ z. less y z ≡ true) x ys above h,
            insert_sorted-IsSorted x ys s rest,
          )
    ]
