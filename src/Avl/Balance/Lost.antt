-- ===== src/Avl/Balance/Lost.antt =====
-- The double rotation of server/src/data_structures/avl.cpp where the two grandchildren are of the
-- same height, which a deletion on the other side can lead to.
use redis_like.Avl.{Tree, node, avl_height, avl_update, rot_left_right, fix_node}
use redis_like.Avl.Balance.Rotations.{IsBalanced}
use redis_like.Avl.Shape.{size, height, IsCached, avl_height-IsCached, height-le-size}
use redis_like.Prelude.{ℕ, ◌+◌, ◌%◌, ◌^◌, ◌<◌, ◌==◌, leb, true, ◌≡◌, refl, arith, Returns}

-- A round of `avl_fix` at a node whose left child is higher by two, with children of the same height
-- of which the right one leans to the right: all parts are balanced, and the result is not.
pub fix_node_unbalanced :
    (a : Tree) (y h' c' : ℕ) (b : Tree) (z h'' c'' : ℕ) (d : Tree) (x h c : ℕ) (r : Tree)
    → IsCached (node a y h' c' (node b z h'' c'' d))
    → IsCached r
    → size (node a y h' c' (node b z h'' c'' d)) + size r + 1 < 2 ^ 31
    → IsBalanced (node a y h' c' (node b z h'' c'' d))
    → IsBalanced r
    → height (node a y h' c' (node b z h'' c'' d)) ≡ height r + 2
    → height a ≡ height (node b z h'' c'' d)
    → height b + 1 ≡ height d
    → Returns (fix_node (node (node a y h' c' (node b z h'' c'' d)) x h c r)) λ t. ¬ IsBalanced t
unfolding fix_node avl_update rot_left_right
fix_node_unbalanced a y h' c' b z h'' c'' d x h c r kl kr small bl br high same lean =
    let ha = avl_height-IsCached a kl.2 in
    let hr = avl_height-IsCached r kr in
    let left : (h' == (avl_height r + 2) % 2 ^ 32) ≡ true = ground (arith, height-le-size r) in
    let double : leb (avl_height a) h'' ≡ true = ground arith in
    (
      avl_update (avl_update a y b) z (avl_update d x r),
      rw (left, double) refl,
      λ balanced. absurd (omega arith),
    )
