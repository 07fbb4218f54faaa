-- ===== src/Avl/Shape.antt =====
-- The order of a tree's nodes, and the caches. Rotations and the walk of `avl_fix` keep both.
use redis_like.Avl.{
  Tree, leaf, node, larger, avl_height, avl_cnt, avl_update, updated_height, updated_cnt,
  rot_left_right, rot_right_left, fix_node, inorder,
}
use redis_like.Prelude.{
  ℕ, suc, ◌+◌, ◌%◌, ◌^◌, ◌≤◌, ◌<◌, max, ◌==◌, leb, false, List, [], ◌∷◌, ◌++◌, ◌≡◌, refl, sym, inl,
  inr, arith, length, length-append, append_assoc, append-nil, Returns, Bool-cases,
}

-- The objects from left to right.
abbrev pub items : Tree → List ℕ
items leaf = []
items (node l x h c r) = items l ++ (x ∷ items r)

abbrev pub size : Tree → ℕ
size leaf = 0
size (node l x h c r) = suc (size l + size r)

abbrev pub height : Tree → ℕ
height leaf = 0
height (node l x h c r) = suc (max (height l) (height r))

-- `height` and `cnt` of every node are those of its subtree.
abbrev pub IsCached : Tree → Type 0
IsCached leaf = Unit
IsCached (node l x h c r) =
    (h ≡ suc (max (height l) (height r))) × (c ≡ suc (size l + size r)) × IsCached l × IsCached r

pub length-items : (t : Tree) → length (items t) ≡ size t
length-items leaf = refl
length-items (node l x h c r) =
    omega (arith, length-append (items l) (x ∷ items r), length-items l, length-items r)

pub height-le-size : (t : Tree) → height t ≤ size t
height-le-size leaf = omega arith
height-le-size (node l x h c r) = omega (arith, height-le-size l, height-le-size r)

pub avl_height-IsCached : (t : Tree) → IsCached t → avl_height t ≡ height t
unfolding avl_height
avl_height-IsCached leaf k = refl
avl_height-IsCached (node l x h c r) k = k.0

pub avl_cnt-IsCached : (t : Tree) → IsCached t → avl_cnt t ≡ size t
unfolding avl_cnt
avl_cnt-IsCached leaf k = refl
avl_cnt-IsCached (node l x h c r) k = k.1

larger-max : (a b : ℕ) → larger a b ≡ max a b
larger-max a b = ground arith

-- The traversal appends the objects in order.
pub inorder-items : (t : Tree) (results : List ℕ) → inorder t results ≡ results ++ items t
unfolding inorder
inorder-items leaf results = sym (append-nil results)
inorder-items (node l x h c r) results = rw (inorder-items r, inorder-items l) (simp append_assoc)

-- What a rotation or an update of the node `x` with these children leaves.
abbrev pub IsRearranged : Tree → ℕ → Tree → Tree → Type 0
IsRearranged l x r t = IsCached t × (items t ≡ items l ++ (x ∷ items r))

pub avl_update-IsCached :
    (l : Tree) (x : ℕ) (r : Tree)
    → IsCached l
    → IsCached r
    → size l + size r < 2 ^ 31
    → IsCached (avl_update l x r)
unfolding avl_update
avl_update-IsCached l x r kl kr small = (
  rw (avl_height-IsCached l kl, avl_height-IsCached r kr, larger-max (height l) (height r))
      (omega (arith, height-le-size l, height-le-size r)),
  omega (arith, avl_cnt-IsCached l kl, avl_cnt-IsCached r kr),
  kl,
  kr,
)

module _ (x h c : ℕ) where
  -- The left child is high: one rotation, or two where its right child is not the lower one.
  rot_left_right-IsRearranged :
      (l r : Tree)
      → IsCached l
      → IsCached r
      → size l + size r + 1 < 2 ^ 31
      → 2 ≤ height l
      → Returns (rot_left_right (node l x h c r)) (IsRearranged l x r)
  unfolding rot_left_right avl_update
  rot_left_right-IsRearranged leaf r kl kr small high = absurd (omega arith)
  rot_left_right-IsRearranged (node a y h' c' leaf) r kl kr small high =
      let off : leb (avl_height a) 0 ≡ false = ground (arith, avl_height-IsCached a kl.2) in
      (
        avl_update a y (avl_update leaf x r),
        rw off refl,
        (
          avl_update-IsCached a y (avl_update leaf x r) kl.2
              (avl_update-IsCached leaf x r tt kr (omega arith)) (omega arith),
          simp append_assoc,
        ),
      )
  rot_left_right-IsRearranged (node a y h' c' (node b z h'' c'' d)) r kl kr small high =
      elim (Bool-cases (leb (avl_height a) h'')) [
        | inl double ↦ (
          avl_update (avl_update a y b) z (avl_update d x r),
          rw double refl,
          (
            avl_update-IsCached (avl_update a y b) z (avl_update d x r)
                (avl_update-IsCached a y b kl.2 kl.3.2 (omega arith))
                (avl_update-IsCached d x r kl.3.3 kr (omega arith)) (omega arith),
            simp append_assoc,
          ),
        )
        | inr single ↦ (
          avl_update a y (avl_update (node b z h'' c'' d) x r),
          rw single refl,
          (
            avl_update-IsCached a y (avl_update (node b z h'' c'' d) x r) kl.2
                (avl_update-IsCached (node b z h'' c'' d) x r kl.3 kr (omega arith)) (omega arith),
            simp append_assoc,
          ),
        )
      ]

  rot_right_left-IsRearranged :
      (l r : Tree)
      → IsCached l
      → IsCached r
      → size l + size r + 1 < 2 ^ 31
      → 2 ≤ height r
      → Returns (rot_right_left (node l x h c r)) (IsRearranged l x r)
  unfolding rot_right_left avl_update
  rot_right_left-IsRearranged l leaf kl kr small high = absurd (omega arith)
  rot_right_left-IsRearranged l (node leaf y h' c' b) kl kr small high =
      let off : leb (avl_height b) 0 ≡ false = ground (arith, avl_height-IsCached b kr.3) in
      (
        avl_update (avl_update l x leaf) y b,
        rw off refl,
        (
          avl_update-IsCached (avl_update l x leaf) y b
              (avl_update-IsCached l x leaf kl tt (omega arith)) kr.3 (omega arith),
          simp append_assoc,
        ),
      )
  rot_right_left-IsRearranged l (node (node a z h'' c'' d) y h' c' b) kl kr small high =
      elim (Bool-cases (leb (avl_height b) h'')) [
        | inl double ↦ (
          avl_update (avl_update l x a) z (avl_update d y b),
          rw double refl,
          (
            avl_update-IsCached (avl_update l x a) z (avl_update d y b)
                (avl_update-IsCached l x a kl kr.2.2 (omega arith))
                (avl_update-IsCached d y b kr.2.3 kr.3 (omega arith)) (omega arith),
            simp append_assoc,
          ),
        )
        | inr single ↦ (
          avl_update (avl_update l x (node a z h'' c'' d)) y b,
          rw single refl,
          (
            avl_update-IsCached (avl_update l x (node a z h'' c'' d)) y b
                (avl_update-IsCached l x (node a z h'' c'' d) kl kr.2 (omega arith)) kr.3
                (omega arith),
            simp append_assoc,
          ),
        )
      ]

-- A round of `avl_fix` returns and keeps the order of the nodes.
pub fix_node-IsRearranged :
    (l : Tree) (x h c : ℕ) (r : Tree)
    → IsCached l
    → IsCached r
    → size l + size r + 1 < 2 ^ 31
    → Returns (fix_node (node l x h c r)) (IsRearranged l x r)
unfolding fix_node avl_update
fix_node-IsRearranged l x h c r kl kr small =
    elim (Bool-cases (avl_height l == (avl_height r + 2) % 2 ^ 32)) [
      | inl left ↦
          let high : 2 ≤ height l = ground (arith, hl, hr, height-le-size r) in
          rw left (
            rot_left_right-IsRearranged x (updated_height l r) (updated_cnt l r) l r kl kr small
              high)
      | inr not_left ↦
          rw not_left (elim (Bool-cases (avl_height r == (avl_height l + 2) % 2 ^ 32)) [
            | inl right ↦
                let high : 2 ≤ height r = ground (arith, hl, hr, height-le-size l) in
                rw right (
                  rot_right_left-IsRearranged x (updated_height l r) (updated_cnt l r) l r kl kr
                    small high)
            | inr not_right ↦
                rw not_right
                  (avl_update l x r, refl, (avl_update-IsCached l x r kl kr (omega arith), refl))
          ])
    ]
  where
    hl : avl_height l ≡ height l
    hl = avl_height-IsCached l kl

    hr : avl_height r ≡ height r
    hr = avl_height-IsCached r kr
