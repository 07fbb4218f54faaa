-- ===== src/Avl/Rank.antt =====
-- `avl_rank` of server/src/data_structures/avl.cpp counts from one along the traversal.
use redis_like.Avl.{
  Tree, node, in_left, in_right, Trail, root_of, avl_cnt, locate, rank_above, avl_rank,
}
use redis_like.Avl.Sorted.{occurs}
use redis_like.Avl.Locate.{Located, missing, at, locate-Located}
use redis_like.Avl.Shape.{items, size, IsCached, length-items, avl_cnt-IsCached}
use redis_like.Avl.Fix.{before, after, IsCachedTrail, items-root_of}
use redis_like.Prelude.{
  ℕ, suc, ◌+◌, ◌%◌, ◌^◌, ◌≤◌, ◌<◌, Option, none, some, List, [], ◌∷◌, ◌++◌, ◌≡◌, refl, sym, ap, ◌∙◌,
  arith, length, length-append, append_assoc,
}

rank_above-before :
    (p : Trail) (rank : ℕ)
    → IsCachedTrail p
    → rank + length (before p) < 2 ^ 32
    → rank_above p rank ≡ rank + length (before p)
unfolding rank_above
rank_above-before [] rank k h = omega arith
rank_above-before (in_left x h c r ∷ p) rank k small = rank_above-before p rank k.1 small
rank_above-before (in_right l x h c ∷ p) rank k small =
    let e = length-append (before p) (items l ++ (x ∷ [])) in
    let e' = length-append (items l) (x ∷ []) in
    let own = avl_cnt-IsCached l k.0 in
    let n = length-items l in
    let here : (rank + (avl_cnt l + 1)) % 2 ^ 32 ≡ rank + (size l + 1) = omega arith in
    rw here (omega (arith, rank_above-before p (rank + (size l + 1)) k.1 (omega arith)))

module _ (t : Tree) (x : ℕ) (k : IsCached t) (small : size t < 2 ^ 31) where
  rank_at :
      (found : Option (Tree × Trail))
      → locate x t [] ≡ found
      → Located x t [] found
      → 1 ≤ occurs x (items t)
      → (a b : List ℕ) × (items t ≡ a ++ (x ∷ b)) × (avl_rank t (some x) ≡ suc (length a))
  unfolding avl_rank root_of
  rank_at none e (missing z) once = absurd (omega arith)
  rank_at (some _) e (at l h c r q root cached) once =
      let (kt, kq) = cached k tt in
      let a = before q ++ items l in
      let split : items t ≡ a ++ (x ∷ (items r ++ after q)) =
        ap items (sym root) ∙ items-root_of (node l x h c r) q ∙ simp append_assoc in
      let la = length-append (before q) (items l) in
      let outside : length (before q) + size l < 2 ^ 31 = omega (
        arith,
        ap length split,
        length-append a (x ∷ (items r ++ after q)),
        length-items t,
        length-items l,
      ) in
      let own = avl_cnt-IsCached l kt.2 in
      let start : (avl_cnt l + 1) % 2 ^ 32 ≡ size l + 1 = omega arith in
      (
        a,
        items r ++ after q,
        split,
        rw (avl_rank, e, start)
            (omega (arith, length-items l, rank_above-before q (size l + 1) kq (omega arith))),
      )

  -- The rank of an object of the tree is one more than the number of objects before it.
  pub avl_rank-items :
      1 ≤ occurs x (items t)
      → (a b : List ℕ) × (items t ≡ a ++ (x ∷ b)) × (avl_rank t (some x) ≡ suc (length a))
  avl_rank-items = rank_at (locate x t []) refl (locate-Located x t [])
