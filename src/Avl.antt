-- ===== src/Avl.antt =====
-- server/src/data_structures/avl.h and avl.cpp. A node is the object in which it is embedded, by its
-- address, with the cached height and count. The parent pointers are a path: a pointer to a node is
-- the subtree below it with the frames up to the root.
pub mod Sorted
pub mod Shape
pub mod Fix
pub mod Insert
pub mod Locate
pub mod Rank
pub mod Range
pub mod Delete
pub mod Balance
use redis_like.Prelude.{
  ℕ, zero, suc, ◌+◌, ◌%◌, ◌^◌, max, ◌==◌, leb, ltb, if◌then◌else◌, Bool, true, false, ◌&&◌, ◌||◌,
  Option, none, some, List, [], ◌∷◌, ◌++◌, Run, ok, undefined, ◌>>=◌, ℤ, pos, ltb_ℤ, leb_ℤ,
}

-- `AVLNode *`: the left child, the object, `height`, `cnt` and the right child.
pub data Tree : Type 0 where
  leaf : Tree
  node : Tree → ℕ → ℕ → ℕ → Tree → Tree

-- A parent, seen from its left or right child, with the other child.
pub data Frame : Type 0 where
  in_left : ℕ → ℕ → ℕ → Tree → Frame
  in_right : Tree → ℕ → ℕ → ℕ → Frame

abbrev pub Trail : Type 0
Trail = List Frame

-- The parent with `*from` set.
abbrev pub plug : Frame → Tree → Tree
plug (in_left x h c r) t = node t x h c r
plug (in_right l x h c) t = node l x h c t

-- The root above a node.
unfoldable pub root_of : Tree → Trail → Tree
root_of t [] = t
root_of t (f ∷ p) = root_of (plug f t) p

-- `max` of `avl_update`
abbrev pub larger : ℕ → ℕ → ℕ
larger l_cnt r_cnt = if leb l_cnt r_cnt then r_cnt else l_cnt

unfoldable pub avl_height : Tree → ℕ
avl_height leaf = 0
avl_height (node l x h c r) = h

unfoldable pub avl_cnt : Tree → ℕ
avl_cnt leaf = 0
avl_cnt (node l x h c r) = c

abbrev pub updated_height : Tree → Tree → ℕ
updated_height l r = (1 + larger (avl_height l) (avl_height r)) % 2 ^ 32

abbrev pub updated_cnt : Tree → Tree → ℕ
updated_cnt l r = (1 + avl_cnt l + avl_cnt r) % 2 ^ 32

-- `avl_update` of the node with these children.
unfoldable pub avl_update : Tree → ℕ → Tree → Tree
unfolding avl_height avl_cnt
avl_update l x r = node l x (updated_height l r) (updated_cnt l r) r

-- A rotation returns the new root of the subtree; its parent pointer stays the old one's.
unfoldable pub rot_left : Tree → Run Tree
unfolding avl_update
rot_left leaf = undefined
rot_left (node l x h c leaf) = undefined
rot_left (node l x h c (node m y h' c' r)) = ok (avl_update (avl_update l x m) y r)

unfoldable pub rot_right : Tree → Run Tree
unfolding avl_update
rot_right leaf = undefined
rot_right (node leaf x h c r) = undefined
rot_right (node (node l y h' c' m) x h c r) = ok (avl_update l y (avl_update m x r))

unfoldable pub rot_left_right : Tree → Run Tree
unfolding rot_left rot_right avl_height
rot_left_right leaf = undefined
rot_left_right (node leaf x h c r) = undefined
rot_left_right (node (node l y h' c' m) x h c r) =
    if leb (avl_height l) (avl_height m)
    then rot_left (node l y h' c' m) >>= (λ left. rot_right (node left x h c r))
    else rot_right (node (node l y h' c' m) x h c r)

unfoldable pub rot_right_left : Tree → Run Tree
unfolding rot_left rot_right avl_height
rot_right_left leaf = undefined
rot_right_left (node l x h c leaf) = undefined
rot_right_left (node l x h c (node m y h' c' r)) =
    if leb (avl_height r) (avl_height m)
    then rot_right (node m y h' c' r) >>= (λ right. rot_left (node l x h c right))
    else rot_left (node l x h c (node m y h' c' r))

-- One round of `avl_fix`: the node is updated and, if it is out of balance, rotated.
unfoldable pub fix_node : Tree → Run Tree
unfolding avl_update avl_height rot_left_right rot_right_left
fix_node leaf = undefined
fix_node (node l x h c r) =
    let t = avl_update l x r in
    if avl_height l == (avl_height r + 2) % 2 ^ 32
    then rot_left_right t
    else if avl_height r == (avl_height l + 2) % 2 ^ 32
    then rot_right_left t
    else ok t

-- From a node up to the root, which it returns.
unfoldable pub avl_fix : Tree → Trail → Run Tree
avl_fix t [] = fix_node t
avl_fix t (f ∷ p) = do t' ← fix_node t; avl_fix (plug f t') p

module _ (less : ℕ → ℕ → Bool) where
  unfoldable pub avl_find : Tree → ℕ → Option ℕ
  avl_find leaf x = none
  avl_find (node l y h c r) x = elim (less x y) [
    | true ↦ avl_find l x
    | false ↦ elim (less y x) [ true ↦ avl_find r x | false ↦ some y ]
  ]

  -- The way down to the null pointer where the node goes.
  unfoldable pub descend : Tree → ℕ → Trail → Trail
  descend leaf x p = p
  descend (node l y h c r) x p = elim (less x y) [
    | true ↦ descend l x (in_left y h c r ∷ p)
    | false ↦ descend r x (in_right l y h c ∷ p)
  ]

  -- `height` and `cnt` of the new node are computed anew by the first round of `avl_fix`.
  unfoldable pub avl_insert : Tree → ℕ → Run Tree
  unfolding descend
  avl_insert t x = avl_fix (node leaf x 1 1 leaf) (descend t x [])

-- Where the node of an object stands, as its own pointers say: `none` if it is in no tree.
unfoldable pub locate : ℕ → Tree → Trail → Option (Tree × Trail)
locate x leaf p = none
locate x (node l y h c r) p =
    let right = locate x r (in_right l y h c ∷ p) in
    if y == x
    then some (node l y h c r, p)
    else elim (locate x l (in_left y h c r ∷ p)) [ some found ↦ some found | none ↦ right ]

abbrev pub only_child : Tree → Tree → Tree
only_child leaf r = r
only_child (node l x h c m) r = node l x h c m

-- Deletes a node with one child at most. The null pointer leaves the tree as it is.
unfoldable pub avl_del : Tree → Trail → Run Tree
unfolding avl_fix root_of
avl_del leaf p = ok (root_of leaf p)
avl_del (node l x h c r) [] = ok (only_child l r)
avl_del (node l x h c r) (f ∷ p) = avl_fix (plug f (only_child l r)) p

-- The leftmost node: the successor, where it starts at a right child.
unfoldable pub leftmost : Tree → Trail → Tree × Trail
leftmost leaf p = (leaf, p)
leftmost (node leaf x h c r) p = (node leaf x h c r, p)
leftmost (node (node l y h' c' m) x h c r) p = leftmost (node l y h' c' m) (in_left x h c r ∷ p)

-- The successor takes the place, the children and the parent of the node `x`.
unfoldable pub replace : Tree → ℕ → Tree → Run Tree
unfolding locate avl_update root_of
replace t x (node _ s _ _ _) = elim (locate x t []) [
  | some (node l _ _ _ r, p) ↦ ok (root_of (avl_update l s r) p)
  | _ ↦ undefined
]
replace t x leaf = undefined

unfoldable pub delete_at : Tree → Trail → Run Tree
unfolding avl_del leftmost replace
delete_at leaf p = undefined
delete_at (node leaf x h c r) p = avl_del (node leaf x h c r) p
delete_at (node (node a y h' c' b) x h c leaf) p = avl_del (node (node a y h' c' b) x h c leaf) p
delete_at (node (node a y h' c' b) x h c (node d z h'' c'' e)) p =
    let (successor, q) = leftmost (node d z h'' c'' e) (in_right (node a y h' c' b) x h c ∷ p) in
    do t ← avl_del successor q; replace t x successor

-- A node in no tree has null pointers, so that its missing child becomes the root.
unfoldable pub avl_delete_ : Tree → ℕ → Run Tree
unfolding locate delete_at
avl_delete_ t x = elim (locate x t []) [ none ↦ ok leaf | some (sub, p) ↦ delete_at sub p ]

unfoldable pub avl_delete : (ℕ → ℕ → Bool) → Tree → ℕ → Run Tree
unfolding avl_find avl_delete_
avl_delete less t x = elim (avl_find less t x) [ none ↦ ok t | some _ ↦ avl_delete_ t x ]

-- What the walk to the root adds to the rank.
unfoldable pub rank_above : Trail → ℕ → ℕ
unfolding avl_cnt
rank_above [] rank = rank
rank_above (in_left x h c r ∷ p) rank = rank_above p rank
rank_above (in_right l x h c ∷ p) rank = rank_above p ((rank + (avl_cnt l + 1)) % 2 ^ 32)

unfoldable pub avl_rank : Tree → Option ℕ → ℕ
unfolding rank_above locate avl_cnt
avl_rank t none = 0
avl_rank t (some x) = elim (locate x t []) [
  | some (node l _ _ _ r, p) ↦ rank_above p ((avl_cnt l + 1) % 2 ^ 32)
  | _ ↦ 1
]

unfoldable pub inorder : Tree → List ℕ → List ℕ
inorder leaf results = results
inorder (node l x h c r) results = inorder r (inorder l results ++ x ∷ [])

unfoldable pub avl_inorder : Tree → List ℕ
unfolding inorder
avl_inorder t = inorder t []

abbrev pub in_range : ℤ → ℤ → ℕ → Bool
in_range min_rank max_rank rank = leb_ℤ min_rank (pos rank) && leb_ℤ (pos rank) max_rank

-- `current_rank++` of an `int`.
abbrev pub next_rank : ℕ → Run ℕ
next_rank rank = if ltb (rank + 1) (2 ^ 31) then ok (rank + 1) else undefined

-- Returns `current_rank` and `result`, which the source passes by reference.
unfoldable pub collect_in_range : Tree → ℕ → ℤ → ℤ → List ℕ → Run (ℕ × List ℕ)
collect_in_range leaf rank lo hi result = ok (rank, result)
collect_in_range (node l x h c r) rank lo hi result =
    let left = collect_in_range l rank lo hi result in
    if ltb_ℤ hi (pos rank) then ok (rank, result) else do
      (rank', result') ← left
      let here = if in_range lo hi rank' then result' ++ x ∷ [] else result'
      next ← next_rank rank'
      let right = collect_in_range r next lo hi here
      if leb_ℤ (pos next) hi then right else ok (next, here)

unfoldable pub avl_range_by_rank : Tree → ℤ → ℤ → Run (List ℕ)
unfolding collect_in_range
avl_range_by_rank leaf lo hi = ok []
avl_range_by_rank (node l x h c r) lo hi =
    if ltb_ℤ hi lo then ok [] else collect_in_range (node l x h c r) 1 lo hi [] >>= λ r. ok r.1

unfoldable pub avl_clean_up : Tree → Tree
avl_clean_up t = leaf
