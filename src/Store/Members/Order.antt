-- ===== src/Store/Members/Order.antt =====
-- The order of server/src/data_structures/zset.cpp: by score, and by name where the scores are equal.
use redis_like.Store.Members.{less, less_entry}
use redis_like.Store.Objects.{Bytes, Double, Memory, Entry, same_bytes, bytes_lt}
use redis_like.Prelude.{
  ℕ, true, false, Option, none, some, [], ◌∷◌, ◌≡◌, refl, ◌⊎◌, inl, inr, arith, Bool-cases,
}

-- What the comparisons of doubles guarantee. A number equals itself, NaN does not.
pub record IsOrdered {Score : Type 0} (double : Double Score) : Type 0 where
  pub eq_sym : (a b : Score) → double.eq a b ≡ true → double.eq b a ≡ true
  pub eq_trans :
      (a b c : Score) → double.eq a b ≡ true → double.eq b c ≡ true → double.eq a c ≡ true
  pub lt_trans :
      (a b c : Score) → double.lt a b ≡ true → double.lt b c ≡ true → double.lt a c ≡ true
  pub lt_eq : (a b c : Score) → double.lt a b ≡ true → double.eq b c ≡ true → double.lt a c ≡ true
  pub eq_lt : (a b c : Score) → double.eq a b ≡ true → double.lt b c ≡ true → double.lt a c ≡ true
  pub lt_apart : (a b : Score) → double.lt a b ≡ true → double.eq a b ≡ false
  pub total :
      (a b : Score)
      → double.eq a a ≡ true
      → double.eq b b ≡ true
      → (double.lt a b ≡ true) ⊎ (double.eq a b ≡ true) ⊎ (double.lt b a ≡ true)

bytes_lt_trans : (a b c : Bytes) → bytes_lt a b ≡ true → bytes_lt b c ≡ true → bytes_lt a c ≡ true
unfolding bytes_lt
bytes_lt_trans [] [] c h k = absurd cc
bytes_lt_trans [] (y ∷ b) [] h k = absurd cc
bytes_lt_trans [] (y ∷ b) (z ∷ c) h k = refl
bytes_lt_trans (x ∷ a) [] c h k = absurd cc
bytes_lt_trans (x ∷ a) (y ∷ b) [] h k = absurd cc
bytes_lt_trans (x ∷ a) (y ∷ b) (z ∷ c) h k = ground (arith, bytes_lt_trans a b c)

bytes_lt_total :
    (a b : Bytes) → same_bytes a b ≡ false → (bytes_lt a b ≡ true) ⊎ (bytes_lt b a ≡ true)
unfolding bytes_lt same_bytes
bytes_lt_total [] [] h = absurd cc
bytes_lt_total [] (y ∷ b) h = inl refl
bytes_lt_total (x ∷ a) [] h = inr refl
bytes_lt_total (x ∷ a) (y ∷ b) h = ground (arith, bytes_lt_total a b)

module _ {Score : Type 0} (double : Double Score) (laws : IsOrdered double) where
  below : (a b : Entry Score) → double.lt a.score b.score ≡ true → less_entry double a b ≡ true
  unfolding less_entry
  below a b lt = rw (laws.lt_apart a.score b.score lt) lt

  less_entry_trans :
      (a b c : Entry Score)
      → less_entry double a b ≡ true
      → less_entry double b c ≡ true
      → less_entry double a c ≡ true
  unfolding less_entry
  less_entry_trans a b c h k = elim (Bool-cases (double.eq a.score b.score)) [
    | inl ab ↦ elim (Bool-cases (double.eq b.score c.score)) [
      | inl bc ↦
          rw (laws.eq_trans a.score b.score c.score ab bc)
            (bytes_lt_trans a.name b.name c.name (rw ab at h) (rw bc at k))
      | inr bc ↦ below a c (laws.eq_lt a.score b.score c.score ab (rw bc at k))
    ]
    | inr ab ↦ elim (Bool-cases (double.eq b.score c.score)) [
      | inl bc ↦ below a c (laws.lt_eq a.score b.score c.score (rw ab at h) bc)
      | inr bc ↦ below a c (laws.lt_trans a.score b.score c.score (rw ab at h) (rw bc at k))
    ]
  ]

  -- Two numbers with different names compare.
  pub less_entry_total :
      (a b : Entry Score)
      → double.eq a.score a.score ≡ true
      → double.eq b.score b.score ≡ true
      → same_bytes a.name b.name ≡ false
      → (less_entry double a b ≡ true) ⊎ (less_entry double b a ≡ true)
  unfolding less_entry
  less_entry_total a b h k apart = elim (laws.total a.score b.score h k) [
    | inl lt ↦ inl (below a b lt)
    | inr (inl e) ↦ rw (e, laws.eq_sym a.score b.score e) (bytes_lt_total a.name b.name apart)
    | inr (inr gt) ↦ inr (below b a gt)
  ]

  pub less_trans :
      (m : Memory (Entry Score)) (x y z : ℕ)
      → less double m x y ≡ true
      → less double m y z ≡ true
      → less double m x z ≡ true
  unfolding less
  less_trans m x y z h k = from (m x) (m y) (m z) h k
    where
      from :
          (a b c : Option (Entry Score))
          → elim a [
            | none ↦ false
            | some x ↦ elim b [ none ↦ false | some y ↦ less_entry double x y ]
          ]
            ≡ true
          → elim b [
            | none ↦ false
            | some x ↦ elim c [ none ↦ false | some y ↦ less_entry double x y ]
          ]
            ≡ true
          → elim a [
            | none ↦ false
            | some x ↦ elim c [ none ↦ false | some y ↦ less_entry double x y ]
          ]
            ≡ true
      from none b c h k = h
      from (some a) none c h k = absurd cc
      from (some a) (some b) none h k = absurd cc
      from (some a) (some b) (some c) h k = less_entry_trans a b c h k
