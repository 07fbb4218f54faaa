-- ===== src/Store/Members/Entries.antt =====
-- The addresses in a tree of server/src/data_structures/zset.cpp, and the entries that stand there.
use redis_like.Avl.{in_range}
use redis_like.Avl.Range.{ranked}
use redis_like.Avl.Sorted.{occurs, remove, IsSorted, insert_sorted}
use redis_like.Store.Contents.{has_key, same_bytes_refl}
use redis_like.Store.Members.{less, less_entry, read_entries}
use redis_like.Store.Members.Ranking.{entries_at, score_of, rank_of, without, place, stretch, pairs}
use redis_like.Store.Objects.{Bytes, Double, Memory, Entry, entry_keyed, same_bytes, write, load}
use redis_like.Prelude.{
  ℕ, suc, ◌+◌, ◌≤◌, ◌==◌, if◌then◌else◌, Bool, true, false, Option, none, some, List, [], ◌∷◌, ◌++◌,
  ◌≡◌, refl, ap, inl, inr, arith, length, All, ok, Bool-cases, Option-cases, ℤ, one_if,
}

-- What holds at the objects that occur holds of all.
pub All-occurs : (P : ℕ → Type 0) (xs : List ℕ) → ((a : ℕ) → 1 ≤ occurs a xs → P a) → All P xs
All-occurs P [] h = tt
All-occurs P (x ∷ xs) h =
    let here : (x == x) ≡ true = ground arith in
    (h x (rw here (omega arith)), All-occurs P xs (λ a k. h a (omega arith)))

pub occurs-insert_sorted :
    (less : ℕ → ℕ → Bool) (a x : ℕ) (xs : List ℕ)
    → occurs a (insert_sorted less x xs) ≡ one_if (x == a) + occurs a xs
occurs-insert_sorted less a x [] = omega arith
occurs-insert_sorted less a x (y ∷ ys) = elim (Bool-cases (less x y)) [
  | inl lt ↦ rw lt refl
  | inr ge ↦ rw ge (omega (arith, occurs-insert_sorted less a x ys))
]

pub length-insert_sorted :
    (less : ℕ → ℕ → Bool) (x : ℕ) (xs : List ℕ) → length (insert_sorted less x xs) ≡ suc (length xs)
length-insert_sorted less x [] = refl
length-insert_sorted less x (y ∷ ys) = elim (Bool-cases (less x y)) [
  | inl lt ↦ rw lt refl
  | inr ge ↦ rw ge (ap suc (length-insert_sorted less x ys))
]

pub occurs-remove :
    (a x : ℕ) (xs : List ℕ) → occurs a (remove x xs) ≡ (if x == a then 0 else occurs a xs)
occurs-remove a x [] = ground arith
occurs-remove a x (y ∷ ys) = ground (arith, occurs-remove a x ys)

pub length-remove : (x : ℕ) (xs : List ℕ) → length (remove x xs) + occurs x xs ≡ length xs
length-remove x [] = refl
length-remove x (y ∷ ys) = ground (arith, length-remove x ys)

module _ {Score : Type 0} (double : Double Score) where
  -- An entry stands at the address, and its score is a number.
  pub record Numbered (m : Memory (Entry Score)) (a : ℕ) : Type 0 where
    pub entry : Entry Score
    pub stands : m a ≡ some entry
    pub number : double.eq entry.score entry.score ≡ true

  module _ (m : Memory (Entry Score)) where
    pub entries_at-append :
        (xs ys : List ℕ) → entries_at m (xs ++ ys) ≡ entries_at m xs ++ entries_at m ys
    entries_at-append [] ys = refl
    entries_at-append (a ∷ xs) ys = elim (Option-cases (m a)) [
      | inl e ↦ rw (entries_at, e) (entries_at-append xs ys)
      | inr (x, e) ↦ rw (entries_at, e) (ap (λ w. x ∷ w) (entries_at-append xs ys))
    ]

    pub length-entries_at :
        (xs : List ℕ) → All (Numbered m) xs → length (entries_at m xs) ≡ length xs
    length-entries_at [] k = refl
    length-entries_at (a ∷ xs) (h, k) = rw (entries_at, h.stands) (ap suc (length-entries_at xs k))

    pub without-remove :
        (name : Bytes) (a : ℕ) (xs : List ℕ)
        → All (λ b. has_key (m b) name ≡ (b == a)) xs
        → without name (entries_at m xs) ≡ entries_at m (remove a xs)
    without-remove name a [] k = refl
    without-remove name a (b ∷ xs) (h, k) =
        let rest = without-remove name a xs k in
        elim (Option-cases (m b)) [
          | inl e ↦ let apart : false ≡ (b == a) = (rw e at h) in rw (← apart, entries_at, e) rest
          | inr (x, e) ↦
              let same : same_bytes x.name name ≡ (b == a) = (rw e at h) in
              rw (entries_at, e, ← same)
                (elim (Bool-cases (same_bytes x.name name)) [
                  | inl hit ↦ rw hit rest
                  | inr miss ↦ rw (miss, entries_at, e) (ap (λ w. x ∷ w) rest)
                ])
        ]

    pub without_absent :
        (name : Bytes) (xs : List ℕ)
        → All (λ b. has_key (m b) name ≡ false) xs
        → without name (entries_at m xs) ≡ entries_at m xs
    without_absent name [] k = refl
    without_absent name (b ∷ xs) (h, k) =
        let rest = without_absent name xs k in
        elim (Option-cases (m b)) [
          | inl e ↦ rw (entries_at, e) rest
          | inr (x, e) ↦
              let miss : same_bytes x.name name ≡ false = (rw e at h) in
              rw (entries_at, e, miss) (ap (λ w. x ∷ w) rest)
        ]

    pub place-insert_sorted :
        (x : ℕ) (e : Entry Score) (xs : List ℕ)
        → m x ≡ some e
        → entries_at m (insert_sorted (less double m) x xs) ≡ place double e (entries_at m xs)
    unfolding less
    place-insert_sorted x e [] at = rw (entries_at, at) refl
    place-insert_sorted x e (y ∷ ys) at =
        let rest = place-insert_sorted x e ys at in
        elim (Option-cases (m y)) [
          | inl gone ↦
              let ge : less double m x y ≡ false = rw (less, at, gone) refl in
              rw (ge, entries_at, gone) rest
          | inr (z, here) ↦
              let same : less double m x y ≡ less_entry double e z = rw (less, at, here) refl in
              rw (same, entries_at, here)
                (elim (Bool-cases (less_entry double e z)) [
                  | inl lt ↦ rw (lt, entries_at, at) (rw (entries_at, here) refl)
                  | inr ge ↦ rw (ge, entries_at, here) (ap (λ w. z ∷ w) rest)
                ])
        ]

    pub read_entries-pairs :
        (xs : List ℕ) → All (Numbered m) xs → read_entries m xs ≡ ok (pairs (entries_at m xs))
    unfolding read_entries
    read_entries-pairs [] k = refl
    read_entries-pairs (a ∷ xs) (h, k) =
        rw (load, h.stands, entries_at, read_entries-pairs xs k) refl

    pub stretch-ranked :
        (lo hi : ℤ) (rank : ℕ) (xs : List ℕ)
        → All (Numbered m) xs
        → entries_at m (ranked lo hi rank xs) ≡ stretch lo hi rank (entries_at m xs)
    stretch-ranked lo hi rank [] k = refl
    stretch-ranked lo hi rank (a ∷ xs) (h, k) =
        let rest = stretch-ranked lo hi (rank + 1) xs k in
        elim (Bool-cases (in_range lo hi rank)) [
          | inl inside ↦ rw (inside, entries_at, h.stands) (rw inside (ap (λ w. h.entry ∷ w) rest))
          | inr out ↦ rw (out, entries_at, h.stands) (rw out rest)
        ]

    pub All-ranked :
        (P : ℕ → Type 0) (lo hi : ℤ) (rank : ℕ) (xs : List ℕ)
        → All P xs
        → All P (ranked lo hi rank xs)
    All-ranked P lo hi rank [] k = tt
    All-ranked P lo hi rank (a ∷ xs) (h, k) =
        let rest = All-ranked P lo hi (rank + 1) xs k in
        elim (Bool-cases (in_range lo hi rank)) [
          | inl inside ↦ rw inside (h, rest)
          | inr out ↦ rw out rest
        ]

    pub score_of_absent :
        (name : Bytes) (xs : List ℕ)
        → All (λ b. has_key (m b) name ≡ false) xs
        → (score_of name (entries_at m xs) ≡ none) × (rank_of name (entries_at m xs) ≡ none)
    score_of_absent name [] k = (refl, refl)
    score_of_absent name (b ∷ xs) (h, k) =
        let (s, r) = score_of_absent name xs k in
        elim (Option-cases (m b)) [
          | inl e ↦ rw (entries_at, e) (s, r)
          | inr (x, e) ↦
              let miss : same_bytes x.name name ≡ false = (rw e at h) in
              rw (entries_at, e, miss, r) (s, refl)
        ]

    -- Behind entries with other names stands the one that is looked for.
    pub score_of_split :
        (name : Bytes) (a : ℕ) (e : Entry Score) (xs ys : List ℕ)
        → All (Numbered m) xs
        → All (λ b. has_key (m b) name ≡ false) xs
        → m a ≡ some e
        → e.name ≡ name
        → (score_of name (entries_at m (xs ++ (a ∷ ys))) ≡ some e.score)
          × (rank_of name (entries_at m (xs ++ (a ∷ ys))) ≡ some (suc (length xs)))
    score_of_split name a e [] ys n k at named =
        let hit : same_bytes e.name name ≡ true = rw named (same_bytes_refl name) in
        rw (entries_at, at, hit) (refl, refl)
    score_of_split name a e (b ∷ xs) ys (h, n) (o, k) at named =
        let (s, r) = score_of_split name a e xs ys n k at named in
        let miss : same_bytes h.entry.name name ≡ false = (rw h.stands at o) in
        rw (entries_at, h.stands, miss, r) (s, refl)

  -- A write at an address that does not occur.
  module _ (m : Memory (Entry Score)) (a : ℕ) (o : Option (Entry Score)) where
    pub entries_at-write :
        (xs : List ℕ) → occurs a xs ≡ 0 → entries_at (write m a o) xs ≡ entries_at m xs
    entries_at-write [] z = refl
    entries_at-write (x ∷ xs) z =
        let off : (x == a) ≡ false = ground arith in
        let rest = entries_at-write xs (omega arith) in
        elim (Option-cases (m x)) [
          | inl e ↦ rw (entries_at, off, e) rest
          | inr (y, e) ↦ rw (entries_at, off, e) (ap (λ w. y ∷ w) rest)
        ]

    pub Numbered-write :
        (xs : List ℕ) → occurs a xs ≡ 0 → All (Numbered m) xs → All (Numbered (write m a o)) xs
    Numbered-write [] z k = tt
    Numbered-write (x ∷ xs) z (h, k) =
        let off : (x == a) ≡ false = ground arith in
        (
          record { entry = h.entry; stands = rw off h.stands; number = h.number },
          Numbered-write xs (omega arith) k,
        )

    All-less-write :
        (x : ℕ) (xs : List ℕ)
        → (x == a) ≡ false
        → occurs a xs ≡ 0
        → All (λ y. less double m x y ≡ true) xs
        → All (λ y. less double (write m a o) x y ≡ true) xs
    unfolding less
    All-less-write x [] off z k = tt
    All-less-write x (y ∷ xs) off z (h, k) =
        let off' : (y == a) ≡ false = ground arith in
        (
          elim (Option-cases (m x)) [
            | inl e ↦ (let no : false ≡ true = (rw (less, e) at h) in absurd cc)
            | inr (z, e) ↦ (let lt = (rw (less, e) at h) in rw (less, off, e, off') lt)
          ],
          All-less-write x xs off (omega arith) k,
        )

    pub IsSorted-write :
        (xs : List ℕ)
        → occurs a xs ≡ 0
        → IsSorted (less double m) xs
        → IsSorted (less double (write m a o)) xs
    IsSorted-write [] z s = tt
    IsSorted-write (x ∷ xs) z (h, s) =
        let off : (x == a) ≡ false = ground arith in
        (All-less-write x xs off (omega arith) h, IsSorted-write xs (omega arith) s)
