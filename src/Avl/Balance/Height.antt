-- ===== src/Avl/Balance/Height.antt =====
-- How high the trees are that the insertions of server/src/data_structures/avl.cpp build.
use redis_like.Avl.{Tree, leaf, node, avl_height, avl_cnt, root_of, descend, avl_insert}
use redis_like.Avl.Balance.{avl_insert-IsBalanced}
use redis_like.Avl.Balance.Rotations.{IsBalanced, both_Returns}
use redis_like.Avl.Fix.{before, after, avl_fix-items, size-eq_of_items, items-root_of, size-root_of}
use redis_like.Avl.Insert.{descend-IsCachedTrail}
use redis_like.Avl.Shape.{items, size, height, IsCached, avl_height-IsCached, avl_cnt-IsCached}
use redis_like.Prelude.{
  ℕ, zero, suc, ◌+◌, ◌*◌, ◌^◌, ◌≤◌, ◌<◌, Bool, List, [], ◌∷◌, ◌≡◌, refl, arith, length, Run, ok,
  ◌>>=◌, Returns, ◌++◌, sym, ◌∙◌, Bool-cases, leb, inl, inr,
}

-- A balanced tree has exponentially many nodes.
pow-size : (t : Tree) (k : ℕ) → IsBalanced t → 2 * k ≤ height t → 2 ^ k ≤ size t + 1
pow-size leaf zero b h = omega arith
pow-size leaf (suc k) b h = absurd (omega arith)
pow-size (node l x h' c r) zero b h = omega arith
pow-size (node l x h' c r) (suc k) b h =
    let left = pow-size l k b.2 (omega arith) in
    let right = pow-size r k b.3 (omega arith) in omega arith

module _ (less : ℕ → ℕ → Bool) where
  -- The insertions of the objects, in order.
  abbrev pub insert_all : Tree → List ℕ → Run Tree
  insert_all t [] = ok t
  insert_all t (x ∷ xs) = avl_insert less t x >>= λ t'. insert_all t' xs

  abbrev Built : ℕ → Tree → Type 0
  Built n t = IsCached t × IsBalanced t × (size t ≡ n)

  avl_insert-Built :
      (t : Tree) (x n : ℕ)
      → Built n t
      → suc n < 2 ^ 31
      → Returns (avl_insert less t x) (Built (suc n))
  unfolding avl_insert
  avl_insert-Built t x n (k, b, e) small =
      let (q, outside) = descend-IsCachedTrail less t x [] k tt in
      let new = node leaf x 1 1 leaf in
      let way = descend less t x [] in
      let (t', run, ((k', same), b')) =
        both_Returns (λ t'. IsCached t' × (items t' ≡ before way ++ (x ∷ after way))) IsBalanced
          (avl_insert less t x) (avl_fix-items new way (tt, tt) q (omega arith))
          (avl_insert-IsBalanced less t x k b (omega arith)) in
      let count = size-eq_of_items t' (root_of new way) (same ∙ sym (items-root_of new way)) in
      (t', run, (k', b', omega (arith, count, size-root_of new way)))

  insert_all-Built :
      (xs : List ℕ) (t : Tree) (n : ℕ)
      → Built n t
      → n + length xs < 2 ^ 31
      → Returns (insert_all t xs) (Built (n + length xs))
  insert_all-Built [] t n (k, b, e) small = (t, refl, (k, b, omega arith))
  insert_all-Built (x ∷ xs) t n w small =
      let (t', run, w') = avl_insert-Built t x n w (omega arith) in
      let (t'', rest, (k, b, e)) = insert_all-Built xs t' (suc n) w' (omega arith) in
      (t'', rw run rest, (k, b, omega arith))

  -- The insertions of fewer than 2 ^ 31 - 1 objects into an empty tree, in any order, return a tree
  -- whose root counts the objects and has a cached height of 61 at most; where that is 2 * k or more,
  -- there are at least 2 ^ k - 1 objects.
  pub insert_all-height :
      (xs : List ℕ)
      → length xs + 1 < 2 ^ 31
      → Returns (insert_all leaf xs) λ t.
        (avl_cnt t ≡ length xs)
        × ((k : ℕ) → 2 * k ≤ avl_height t → 2 ^ k ≤ length xs + 1)
        × (avl_height t ≤ 61)
  insert_all-height xs small =
      let (t, run, (k, b, e)) = insert_all-Built xs leaf 0 (tt, tt, refl) (omega arith) in
      let count : size t ≡ length xs = omega (arith, e) in
      (t, run, (avl_cnt-IsCached t k ∙ count, bound t k b count, low t k b count))
    where
      bound :
          (t : Tree)
          → IsCached t
          → IsBalanced t
          → size t ≡ length xs
          → (k : ℕ) → 2 * k ≤ avl_height t
          → 2 ^ k ≤ length xs + 1
      bound t c b e k h =
          let same = avl_height-IsCached t c in
          let many = pow-size t k b (omega arith) in rw (sym e) many

      low : (t : Tree) → IsCached t → IsBalanced t → size t ≡ length xs → avl_height t ≤ 61
      low t c b e = elim (Bool-cases (leb (avl_height t) 61)) [
        | inl le ↦ ground arith
        | inr high ↦
            let many : 2 ^ 31 ≤ length xs + 1 = bound t c b e 31 (ground arith) in
            absurd (omega arith)
      ]
