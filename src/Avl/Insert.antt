-- ===== src/Avl/Insert.antt =====
-- `avl_insert` refines the insertion into the sorted list of a tree's objects.
use redis_like.Avl.{Tree, leaf, node, in_left, in_right, Trail, descend, avl_insert}
use redis_like.Avl.Sorted.{
  IsSorted, insert_sorted, insert_sorted_lt, insert_sorted_ge, IsSorted-append, All-not_less,
}
use redis_like.Avl.Shape.{items, size, IsCached}
use redis_like.Avl.Fix.{before, after, IsCachedTrail, size_outside, avl_fix-items}
use redis_like.Prelude.{
  ℕ, ◌+◌, ◌^◌, ◌<◌, Bool, true, [], ◌∷◌, ◌++◌, ◌≡◌, refl, ◌∙◌, inl, inr, arith, append_assoc,
  append-nil, Returns, Bool-cases,
}

module _ (less : ℕ → ℕ → Bool) where
  pub descend-IsCachedTrail :
      (t : Tree) (x : ℕ) (p : Trail)
      → IsCached t
      → IsCachedTrail p
      → IsCachedTrail (descend less t x p)
        × (size_outside (descend less t x p) ≡ size t + size_outside p)
  unfolding descend
  descend-IsCachedTrail leaf x p k q = (q, omega arith)
  descend-IsCachedTrail (node l y h c r) x p k q = elim (Bool-cases (less x y)) [
    | inl lt ↦
        let (q', e) = descend-IsCachedTrail l x (in_left y h c r ∷ p) k.2 (k.3, q) in
        rw (descend, lt) (q', omega (arith, e))
    | inr ge ↦
        let (q', e) = descend-IsCachedTrail r x (in_right l y h c ∷ p) k.3 (k.2, q) in
        rw (descend, ge) (q', omega (arith, e))
  ]

  module _ (trans : (a b c : ℕ) → less a b ≡ true → less b c ≡ true → less a c ≡ true) where
    -- The place that the descent finds is the one in the sorted list.
    descend-insert_sorted :
        (t : Tree) (x : ℕ) (p : Trail)
        → IsSorted less (items t)
        → before (descend less t x p) ++ (x ∷ after (descend less t x p))
          ≡ before p ++ (insert_sorted less x (items t) ++ after p)
    unfolding descend
    descend-insert_sorted leaf x p s = refl
    descend-insert_sorted (node l y h c r) x p s =
        let (below, sl, sr) = IsSorted-append less (items l) (items r) y s in
        elim (Bool-cases (less x y)) [
          | inl lt ↦
              let e = descend-insert_sorted l x (in_left y h c r ∷ p) sl in
              rw (descend, lt, insert_sorted_lt less x y (items l) (items r) lt)
                (e ∙ simp append_assoc)
          | inr ge ↦
              let e = descend-insert_sorted r x (in_right l y h c ∷ p) sr.1 in
              let past = All-not_less less trans x y (items l) ge below in
              rw (descend, ge, insert_sorted_ge less x (items l) (y ∷ items r) past, ge)
                (e ∙ simp append_assoc)
        ]

    -- `avl_insert` returns a tree with valid caches, whose objects are those of the insertion of
    -- the new one into the sorted list of the old tree's.
    pub avl_insert-items :
        (t : Tree) (x : ℕ)
        → IsCached t
        → IsSorted less (items t)
        → size t + 1 < 2 ^ 31
        → Returns
            (avl_insert less t x)
            λ t'. IsCached t' × (items t' ≡ insert_sorted less x (items t))
    unfolding avl_insert
    avl_insert-items t x k s small =
        let (q, outside) = descend-IsCachedTrail t x [] k tt in
        let (t', run, (k', e)) =
          avl_fix-items (node leaf x 1 1 leaf) (descend less t x []) (tt, tt) q (omega arith) in
        (
          t',
          run,
          (k', e ∙ descend-insert_sorted t x [] s ∙ append-nil (insert_sorted less x (items t))),
        )
