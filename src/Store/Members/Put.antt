-- ===== src/Store/Members/Put.antt =====
-- An entry that goes into the tree of a sorted set, in `zadd` of server/src/data_structures/zset.cpp.
use redis_like.Avl.{Tree, avl_insert}
use redis_like.Avl.Insert.{avl_insert-items}
use redis_like.Avl.Shape.{items, size, IsCached, length-items}
use redis_like.Avl.Sorted.{
  occurs, remove, IsSorted, insert_sorted, All-insert_sorted, insert_sorted-IsSorted,
}
use redis_like.Store.Contents.{has_key}
use redis_like.Store.Members.{less, less_entry}
use redis_like.Store.Members.Entries.{
  Numbered, entries_at-write, Numbered-write, IsSorted-write, place-insert_sorted,
  occurs-insert_sorted, length-insert_sorted,
}
use redis_like.Store.Members.Order.{IsOrdered, less_entry_total, less_trans}
use redis_like.Store.Members.Ranking.{entries_at, place}
use redis_like.Store.Objects.{Bytes, Double, Memory, Entry, entry_keyed, same_bytes, write}
use redis_like.Prelude.{
  ℕ, suc, ◌+◌, ◌^◌, ◌<◌, ◌==◌, true, false, Option, some, List, [], ◌∷◌, ◌≡◌, refl, ap, ◌∙◌, ◌⊎◌,
  inl, inr, arith, All, length, one_if, Returns, Bool-cases,
}

module _ {Score : Type 0} where
  -- The other addresses have other names.
  pub others_remove :
      (m : Memory (Entry Score)) (name : Bytes) (x : ℕ) (xs : List ℕ)
      → All (λ b. has_key (m b) name ≡ (b == x)) xs
      → All (λ b. has_key (m b) name ≡ false) (remove x xs)
  others_remove m name x [] k = tt
  others_remove m name x (b ∷ xs) (h, k) = elim (Bool-cases (b == x)) [
    | inl same ↦ rw same (others_remove m name x xs k)
    | inr apart ↦ rw apart (h ∙ apart, others_remove m name x xs k)
  ]

  others_write :
      (m : Memory (Entry Score)) (name : Bytes) (x : ℕ) (o : Option (Entry Score)) (xs : List ℕ)
      → occurs x xs ≡ 0
      → All (λ b. has_key (m b) name ≡ false) xs
      → All (λ b. has_key (write m x o b) name ≡ false) xs
  others_write m name x o [] z k = tt
  others_write m name x o (b ∷ xs) z (h, k) =
      let off : (b == x) ≡ false = ground arith in
      (rw off h, others_write m name x o xs (omega arith) k)

  -- The tree after the insertion of a new entry at `x` among those at `xs`.
  pub record Placed (double : Double Score) (m : Memory (Entry Score)) (x : ℕ) (new : Entry Score)
      (xs : List ℕ) (t : Tree) : Type 0 where
    pub cached : IsCached t
    pub sorted : IsSorted (less double (write m x (some new))) (items t)
    pub numbered : All (Numbered double (write m x (some new))) (items t)
    pub ranks : entries_at (write m x (some new)) (items t) ≡ place double new (entries_at m xs)
    pub counts : (a : ℕ) → occurs a (items t) ≡ one_if (x == a) + occurs a xs
    pub sized : size t ≡ suc (length xs)

  module _ (double : Double Score) (laws : IsOrdered double) (m : Memory (Entry Score)) (x : ℕ)
      (new : Entry Score) (number : double.eq new.score new.score ≡ true) where
    m' : Memory (Entry Score)
    m' = write m x (some new)

    -- An entry with a new name compares with every other.
    comparable :
        (ys : List ℕ)
        → All (Numbered double m') ys
        → All (λ b. has_key (m' b) new.name ≡ false) ys
        → All (λ y. (less double m' x y ≡ true) ⊎ (less double m' y x ≡ true)) ys
    unfolding less m'
    comparable [] n k = tt
    comparable (y ∷ ys) (h, n) (o, k) =
        let at : m' x ≡ some new = let here : (x == x) ≡ true = ground arith in rw here refl in
        let apart : same_bytes h.entry.name new.name ≡ false = (rw h.stands at o) in
        let xy : less double m' x y ≡ less_entry double new h.entry =
          rw (less, at, h.stands) refl in
        let yx : less double m' y x ≡ less_entry double h.entry new =
          rw (less, h.stands, at) refl in
        (
          elim (less_entry_total double laws h.entry new h.number number apart) [
            | inl lt ↦ inr (yx ∙ lt)
            | inr gt ↦ inl (xy ∙ gt)
          ],
          comparable ys n k,
        )

    pub avl_insert-Placed :
        (t : Tree) (xs : List ℕ)
        → items t ≡ xs
        → IsCached t
        → IsSorted (less double m) xs
        → All (Numbered double m) xs
        → All (λ b. has_key (m b) new.name ≡ false) xs
        → occurs x xs ≡ 0
        → size t + 1 < 2 ^ 31
        → Returns (avl_insert (less double (write m x (some new))) t x) (Placed double m x new xs)
    unfolding m'
    avl_insert-Placed t xs e k s n o z small =
        let less' = less double m' in
        let at : m' x ≡ some new = let here : (x == x) ≡ true = ground arith in rw here refl in
        let trans = less_trans double laws m' in
        let s' = IsSorted-write double m x (some new) xs z s in
        let n' = Numbered-write double m x (some new) xs z n in
        let o' = others_write m new.name x (some new) xs z o in
        let (t', run, (k', i)) = avl_insert-items less' trans t x k (rw e s') small in
        let i' : items t' ≡ insert_sorted less' x xs = i ∙ ap (insert_sorted less' x) e in
        (
          t',
          run,
          record {
            cached = k';
            sorted = rw i' (insert_sorted-IsSorted less' trans x xs s' (comparable xs n' o'));
            numbered = rw i' (
                All-insert_sorted less' (Numbered double m') x xs
                  (record { entry = new; stands = at; number = number }) n');
            ranks = rw i' (
                place-insert_sorted double m' x new xs at
                ∙ ap (place double new) (entries_at-write double m x (some new) xs z));
            counts = λ a. rw i' (occurs-insert_sorted less' a x xs);
            sized = omega (arith, length-items t', ap length i', length-insert_sorted less' x xs);
          },
        )
