-- ===== src/Avl/Balance/Rotations.antt =====
-- Balance, and the rotations that restore it where a child has grown: `rot_left_right` and
-- `rot_right_left` of server/src/data_structures/avl.cpp.
use redis_like.Avl.{Tree, leaf, node, avl_height, avl_update, rot_left_right, rot_right_left}
use redis_like.Avl.Shape.{height, IsCached, avl_height-IsCached}
use redis_like.Prelude.{
  ok-injective, ℕ, suc, ◌+◌, ◌≤◌, ◌<◌, max, leb, false, ◌≡◌, ◌≢◌, refl, sym, subst, ◌∙◌, ◌⊎◌, inl,
  inr, arith, Run, Returns, Bool-cases,
}

-- The heights of the children of every node differ by one at most.
abbrev pub IsBalanced : Tree → Type 0
IsBalanced leaf = Unit
IsBalanced (node l x h c r) =
    (height l ≤ height r + 1) × (height r ≤ height l + 1) × IsBalanced l × IsBalanced r

-- The children have different heights, or there are none.
abbrev pub Leans : Tree → Type 0
Leans leaf = ⊥
Leans (node l x h c r) = (height l ≢ height r) ⊎ (height l + height r ≡ 0)

-- A subtree that was of height `n`: its height is the same, or one more and then it leans.
abbrev pub Grows : ℕ → Tree → Type 0
Grows n t = (height t ≡ n) ⊎ ((height t ≡ suc n) × Leans t)

abbrev pub Rebalanced : ℕ → Tree → Type 0
Rebalanced n t = IsBalanced t × Grows n t

-- A call returns one value, of which both things hold.
pub both_Returns {ℓ κ μ} :
    {A : Type ℓ} (P : A → Type κ) (Q : A → Type μ) (r : Run A)
    → Returns r P
    → Returns r Q
    → Returns r (λ a. P a × Q a)
both_Returns P Q r (a, e, p) (b, e', q) = (a, e, (p, subst Q (ok-injective b a (sym e' ∙ e)) q))

-- The left child has grown to two more than the right one, and leans: the rotation restores the
-- balance and the old height.
pub left_rotated :
    (l : Tree) (x h c : ℕ) (r : Tree) (n : ℕ)
    → IsCached l
    → IsBalanced l
    → IsBalanced r
    → n ≤ height r + 1
    → height l ≡ height r + 2
    → Grows n l
    → Returns (rot_left_right (node l x h c r)) (Rebalanced (suc (max n (height r))))
unfolding rot_left_right avl_update
left_rotated leaf x h c r n k bl br near high g = absurd (omega arith)
left_rotated (node a y h' c' leaf) x h c r n k bl br near high g =
    let e = avl_height-IsCached a k.2 in
    let off : leb (avl_height a) 0 ≡ false = ground arith in
    (
      avl_update a y (avl_update leaf x r),
      rw off refl,
      ((omega arith, omega arith, bl.2, (omega arith, omega arith, tt, br)), inl (omega arith)),
    )
left_rotated (node a y h' c' (node b z h'' c'' d)) x h c r n k bl br near high g =
    let e = avl_height-IsCached a k.2 in
    elim (Bool-cases (leb (avl_height a) h'')) [
      | inl double ↦
          let le : height a ≤ suc (max (height b) (height d)) = ground arith in
          (
            avl_update (avl_update a y b) z (avl_update d x r),
            rw double refl,
            (
              (
                omega arith,
                omega arith,
                (omega arith, omega arith, bl.2, bl.3.2),
                (omega arith, omega arith, bl.3.3, br),
              ),
              inl (omega arith),
            ),
          )
      | inr single ↦
          let lt : suc (max (height b) (height d)) < height a = ground arith in
          (
            avl_update a y (avl_update (node b z h'' c'' d) x r),
            rw single refl,
            (
              (omega arith, omega arith, bl.2, (omega arith, omega arith, bl.3, br)),
              inl (omega arith),
            ),
          )
    ]

pub right_rotated :
    (l : Tree) (x h c : ℕ) (r : Tree) (n : ℕ)
    → IsCached r
    → IsBalanced l
    → IsBalanced r
    → n ≤ height l + 1
    → height r ≡ height l + 2
    → Grows n r
    → Returns (rot_right_left (node l x h c r)) (Rebalanced (suc (max (height l) n)))
unfolding rot_right_left avl_update
right_rotated l x h c leaf n k bl br near high g = absurd (omega arith)
right_rotated l x h c (node leaf y h' c' b) n k bl br near high g =
    let e = avl_height-IsCached b k.3 in
    let off : leb (avl_height b) 0 ≡ false = ground arith in
    (
      avl_update (avl_update l x leaf) y b,
      rw off refl,
      ((omega arith, omega arith, (omega arith, omega arith, bl, tt), br.3), inl (omega arith)),
    )
right_rotated l x h c (node (node a z h'' c'' d) y h' c' b) n k bl br near high g =
    let e = avl_height-IsCached b k.3 in
    elim (Bool-cases (leb (avl_height b) h'')) [
      | inl double ↦
          let le : height b ≤ suc (max (height a) (height d)) = ground arith in
          (
            avl_update (avl_update l x a) z (avl_update d y b),
            rw double refl,
            (
              (
                omega arith,
                omega arith,
                (omega arith, omega arith, bl, br.2.2),
                (omega arith, omega arith, br.2.3, br.3),
              ),
              inl (omega arith),
            ),
          )
      | inr single ↦
          let lt : suc (max (height a) (height d)) < height b = ground arith in
          (
            avl_update (avl_update l x (node a z h'' c'' d)) y b,
            rw single refl,
            (
              (omega arith, omega arith, (omega arith, omega arith, bl, br.2), br.3),
              inl (omega arith),
            ),
          )
    ]
