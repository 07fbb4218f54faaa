-- ===== src/Avl/Balance/Rounds.antt =====
-- A round of `avl_fix` of server/src/data_structures/avl.cpp where one child has grown.
use redis_like.Avl.Balance.Rotations.{IsBalanced, Grows, Rebalanced, left_rotated, right_rotated}
use redis_like.Avl.{Tree, node, avl_height, updated_height, updated_cnt, avl_update, fix_node}
use redis_like.Avl.Shape.{size, height, IsCached, height-le-size, avl_height-IsCached}
use native.Mathlib.Decide.{dec_lt}
use redis_like.Prelude.{
  ℕ, suc, ◌+◌, ◌%◌, ◌^◌, ◌≤◌, ◌<◌, max, ◌==◌, false, ◌≡◌, ◌≢◌, refl, inl, inr, arith, Returns,
  Bool-cases,
}

-- A node whose left or right child grew grows itself only if that child is now the higher one.
grown_left :
    (l : Tree) (x h c : ℕ) (r : Tree) (n : ℕ)
    → Grows n l
    → Grows (suc (max n (height r))) (node l x h c r)
grown_left l x h c r n (inl e) = inl (omega arith)
grown_left l x h c r n (inr (e, _)) = elim (dec_lt n (height r)) [
  | yes lower ↦ inl (omega arith)
  | no higher ↦ inr (omega arith, inl (omega arith))
]

grown_right :
    (l : Tree) (x h c : ℕ) (r : Tree) (n : ℕ)
    → Grows n r
    → Grows (suc (max (height l) n)) (node l x h c r)
grown_right l x h c r n (inl e) = inl (omega arith)
grown_right l x h c r n (inr (e, _)) = elim (dec_lt n (height l)) [
  | yes lower ↦ inl (omega arith)
  | no higher ↦ inr (omega arith, inl (omega arith))
]

-- Where one child has grown, a round of `avl_fix` restores the balance.
pub fix_left :
    (l : Tree) (x h c : ℕ) (r : Tree) (n : ℕ)
    → IsCached l
    → IsCached r
    → size l + size r + 1 < 2 ^ 31
    → IsBalanced l
    → IsBalanced r
    → n ≤ height r + 1
    → height r ≤ n + 1
    → Grows n l
    → Returns (fix_node (node l x h c r)) (Rebalanced (suc (max n (height r))))
unfolding fix_node avl_update
fix_left l x h c r n kl kr small bl br near near' g =
    let hl = avl_height-IsCached l kl in
    let hr = avl_height-IsCached r kr in
    elim (Bool-cases (avl_height l == (avl_height r + 2) % 2 ^ 32)) [
      | inl left ↦
          let high : height l ≡ height r + 2 = ground (arith, height-le-size r) in
          rw left (left_rotated l x (updated_height l r) (updated_cnt l r) r n kl bl br near high g)
      | inr flat ↦
          let low : height l ≢ height r + 2 = ground (arith, height-le-size r) in
          let no_right : (avl_height r == (avl_height l + 2) % 2 ^ 32) ≡ false =
            ground (arith, height-le-size l) in
          rw (flat, no_right)
            (
              avl_update l x r,
              refl,
              (
                (omega arith, omega arith, bl, br),
                grown_left l x (updated_height l r) (updated_cnt l r) r n g,
              ),
            )
    ]

pub fix_right :
    (l : Tree) (x h c : ℕ) (r : Tree) (n : ℕ)
    → IsCached l
    → IsCached r
    → size l + size r + 1 < 2 ^ 31
    → IsBalanced l
    → IsBalanced r
    → n ≤ height l + 1
    → height l ≤ n + 1
    → Grows n r
    → Returns (fix_node (node l x h c r)) (Rebalanced (suc (max (height l) n)))
unfolding fix_node avl_update
fix_right l x h c r n kl kr small bl br near near' g =
    let hl = avl_height-IsCached l kl in
    let hr = avl_height-IsCached r kr in
    let no_left : (avl_height l == (avl_height r + 2) % 2 ^ 32) ≡ false =
      ground (arith, height-le-size r) in
    elim (Bool-cases (avl_height r == (avl_height l + 2) % 2 ^ 32)) [
      | inl right ↦
          let high : height r ≡ height l + 2 = ground (arith, height-le-size l) in
          rw (no_left, right)
            (right_rotated l x (updated_height l r) (updated_cnt l r) r n kr bl br near high g)
      | inr flat ↦
          let low : height r ≢ height l + 2 = ground (arith, height-le-size l) in
          rw (no_left, flat)
            (
              avl_update l x r,
              refl,
              (
                (omega arith, omega arith, bl, br),
                grown_right l x (updated_height l r) (updated_cnt l r) r n g,
              ),
            )
    ]
