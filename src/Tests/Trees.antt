-- ===== src/Tests/Trees.antt =====
-- Concrete trees for server/src/data_structures/avl.cpp.
use redis_like.Avl.{
  Tree, leaf, node, Trail, in_left, avl_fix, avl_insert, avl_delete_, avl_rank, avl_range_by_rank,
  inorder, fix_node, avl_cnt, avl_height,
}
use redis_like.Avl.Balance.{avl_insert-IsBalanced}
use redis_like.Avl.Balance.Height.{insert_all, insert_all-height}
use redis_like.Avl.Balance.Lost.{fix_node_unbalanced}
use redis_like.Avl.Balance.Rotations.{IsBalanced}
use redis_like.Avl.Delete.{avl_delete_-items}
use redis_like.Avl.Fix.{before, after, avl_fix-items}
use redis_like.Avl.Insert.{avl_insert-items}
use redis_like.Avl.Range.{slice, avl_range_by_rank-slice}
use redis_like.Avl.Rank.{avl_rank-items}
use redis_like.Avl.Shape.{items, IsCached, inorder-items}
use redis_like.Avl.Sorted.{IsSorted, insert_sorted, remove}
use redis_like.Prelude.{
  ok, ◌*◌, ◌^◌, ◌≤◌, ℕ, suc, some, ltb, true, List, [], ◌∷◌, ◌++◌, ◌≡◌, refl, arith, length,
  Returns, pos,
}

abbrev one_node : ℕ → Tree
one_node x = node leaf x 1 1 leaf

one_node-IsCached : (x : ℕ) → IsCached (one_node x)
one_node-IsCached x = (refl, refl, tt, tt)

one_node-IsBalanced : (x : ℕ) → IsBalanced (one_node x)
one_node-IsBalanced x = (omega arith, omega arith, tt, tt)

-- The objects 2, 4 and 6.
abbrev three : Tree
three = node (one_node 2) 4 2 3 (one_node 6)

three-IsCached : IsCached three
three-IsCached = (refl, refl, one_node-IsCached 2, one_node-IsCached 6)

three-IsBalanced : IsBalanced three
three-IsBalanced = (omega arith, omega arith, one_node-IsBalanced 2, one_node-IsBalanced 6)

ltb_trans : (a b c : ℕ) → ltb a b ≡ true → ltb b c ≡ true → ltb a c ≡ true
ltb_trans a b c h k = ground arith

three-IsSorted : IsSorted ltb (items three)
three-IsSorted = ((refl, (refl, tt)), ((refl, tt), (tt, tt)))

avl_insert-items_example :
    Returns
      (avl_insert ltb three 5)
      λ t'. IsCached t' × (items t' ≡ insert_sorted ltb 5 (items three))
avl_insert-items_example =
    avl_insert-items ltb ltb_trans three 5 three-IsCached three-IsSorted (omega arith)

avl_delete_-items_example :
    Returns (avl_delete_ three 4) λ t'. IsCached t' × (items t' ≡ remove 4 (items three))
avl_delete_-items_example = avl_delete_-items 4 three three-IsCached (omega arith) refl

avl_insert-IsBalanced_example : Returns (avl_insert ltb three 5) IsBalanced
avl_insert-IsBalanced_example =
    avl_insert-IsBalanced ltb three 5 three-IsCached three-IsBalanced (omega arith)

insert_all-height_example :
    Returns
      (insert_all ltb leaf (4 ∷ 2 ∷ 6 ∷ 5 ∷ []))
      λ t. (avl_cnt t ≡ 4) × ((k : ℕ) → 2 * k ≤ avl_height t → 2 ^ k ≤ 5) × (avl_height t ≤ 61)
insert_all-height_example = insert_all-height ltb (4 ∷ 2 ∷ 6 ∷ 5 ∷ []) (omega arith)

avl_rank-items_example :
    (a b : List ℕ) × (items three ≡ a ++ (6 ∷ b)) × (avl_rank three (some 6) ≡ suc (length a))
avl_rank-items_example = avl_rank-items three 6 three-IsCached (omega arith) (omega arith)

avl_range_by_rank-slice_example :
    avl_range_by_rank three (pos 2) (pos 3) ≡ ok (slice (pos 2) (pos 3) (items three))
avl_range_by_rank-slice_example = avl_range_by_rank-slice (pos 2) (pos 3) three (omega arith)

inorder-items_example : inorder three (1 ∷ []) ≡ (1 ∷ []) ++ items three
inorder-items_example = inorder-items three (1 ∷ [])

-- A new leaf, below the left of the node 6.
abbrev above : Trail
above = in_left 6 1 1 leaf ∷ []

avl_fix-items_example :
    Returns
      (avl_fix (one_node 5) above)
      λ t'. IsCached t' × (items t' ≡ before above ++ (items (one_node 5) ++ after above))
avl_fix-items_example = avl_fix-items (one_node 5) above (tt, tt) (tt, tt) (omega arith)

-- A left child of height 3 with children of the same height, which a deletion on its right leaves two
-- higher than its sibling.
abbrev left_child : Tree
left_child = node (node leaf 2 2 2 (one_node 3)) 4 3 5 (node leaf 5 2 2 (one_node 6))

left_child-IsCached : IsCached left_child
left_child-IsCached =
    (refl, refl, (refl, refl, tt, one_node-IsCached 3), (refl, refl, tt, one_node-IsCached 6))

left_child-IsBalanced : IsBalanced left_child
left_child-IsBalanced = (
  omega arith,
  omega arith,
  (omega arith, omega arith, tt, one_node-IsBalanced 3),
  (omega arith, omega arith, tt, one_node-IsBalanced 6),
)

fix_node_unbalanced_example :
    Returns (fix_node (node left_child 7 4 7 (one_node 8))) λ t. ¬ IsBalanced t
fix_node_unbalanced_example =
    fix_node_unbalanced (node leaf 2 2 2 (one_node 3)) 4 3 5 leaf 5 2 2 (one_node 6) 7 4 7
      (one_node 8) left_child-IsCached (one_node-IsCached 8) (omega arith) left_child-IsBalanced
      (one_node-IsBalanced 8) refl refl refl
