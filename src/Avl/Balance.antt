-- ===== src/Avl/Balance.antt =====
-- Insertion keeps an AVL tree balanced.
pub mod Rotations
pub mod Rounds
pub mod Lost
pub mod Height
use redis_like.Avl.Balance.Rotations.{IsBalanced, Leans, Grows, Rebalanced, both_Returns}
use redis_like.Avl.Balance.Rounds.{fix_left, fix_right}
use redis_like.Avl.{
  Tree, leaf, node, in_left, in_right, Trail, avl_height, updated_height, updated_cnt, avl_update,
  rot_left_right, rot_right_left, fix_node, avl_fix, descend, avl_insert,
}
use redis_like.Avl.Shape.{
  items, size, height, IsCached, IsRearranged, length-items, height-le-size, avl_height-IsCached,
  fix_node-IsRearranged,
}
use redis_like.Avl.Fix.{IsCachedTrail, size_outside, size-eq_of_items}
use redis_like.Avl.Insert.{descend-IsCachedTrail}
use native.Mathlib.Decide.{dec_lt}
use redis_like.Prelude.{
  ℕ, zero, suc, ◌+◌, ◌%◌, ◌^◌, ◌≤◌, ◌<◌, max, ◌==◌, leb, if◌then◌else◌, Bool, true, false, List, [],
  ◌∷◌, ◌≡◌, ◌≢◌, refl, sym, ap, subst, ◌∙◌, ◌⊎◌, inl, inr, arith, Run, ok, ◌>>=◌, Returns,
  Bool-cases,
}

-- The other subtrees along the way are balanced, and all would be with a subtree of height `n`.
abbrev IsBalancedTrail : Trail → ℕ → Type 0
IsBalancedTrail [] n = Unit
IsBalancedTrail (in_left x h c r ∷ p) n =
    (n ≤ height r + 1)
    × (height r ≤ n + 1)
    × IsBalanced r
    × IsBalancedTrail p (suc (max n (height r)))
IsBalancedTrail (in_right l x h c ∷ p) n =
    (n ≤ height l + 1)
    × (height l ≤ n + 1)
    × IsBalanced l
    × IsBalancedTrail p (suc (max (height l) n))

-- What a round leaves of a subtree with `s` nodes that was of height `n`.
abbrev Fixed : ℕ → ℕ → Tree → Type 0
Fixed s n t = IsCached t × (size t ≡ s) × Rebalanced n t

fix_both :
    (l : Tree) (x h c : ℕ) (r : Tree) (n : ℕ)
    → IsCached l
    → IsCached r
    → size l + size r + 1 < 2 ^ 31
    → Returns (fix_node (node l x h c r)) (Rebalanced n)
    → Returns (fix_node (node l x h c r)) (Fixed (suc (size l + size r)) n)
fix_both l x h c r n kl kr small b =
    let (t, run, ((k, e), bal)) =
      both_Returns (IsRearranged l x r) (Rebalanced n) (fix_node (node l x h c r))
        (fix_node-IsRearranged l x h c r kl kr small) b in
    (t, run, (k, size-eq_of_items t (node l x h c r) e, bal))

avl_fix-IsBalanced :
    (t : Tree) (p : Trail) (s n : ℕ)
    → Returns (fix_node t) (Fixed s n)
    → IsCachedTrail p
    → IsBalancedTrail p n
    → s + size_outside p < 2 ^ 31
    → Returns (avl_fix t p) IsBalanced
unfolding avl_fix
avl_fix-IsBalanced t [] s n (t', run, (k, e, bal)) kp bp small = (t', run, bal.0)
avl_fix-IsBalanced t (in_left x h c r ∷ p) s n (t', run, (k, e, bal)) kp bp small =
    let step =
      fix_both t' x h c r (suc (max n (height r))) k kp.0 (omega arith)
        (fix_left t' x h c r n k kp.0 (omega arith) bal.0 bp.2 bp.0 bp.1 bal.1) in
    let (u, rest, b) =
      avl_fix-IsBalanced (node t' x h c r) p (suc (size t' + size r)) (suc (max n (height r))) step
        kp.1 bp.3 (omega arith) in
    (u, rw run rest, b)
avl_fix-IsBalanced t (in_right l x h c ∷ p) s n (t', run, (k, e, bal)) kp bp small =
    let step =
      fix_both l x h c t' (suc (max (height l) n)) kp.0 k (omega arith)
        (fix_right l x h c t' n kp.0 k (omega arith) bp.2 bal.0 bp.0 bp.1 bal.1) in
    let (u, rest, b) =
      avl_fix-IsBalanced (node l x h c t') p (suc (size l + size t')) (suc (max (height l) n)) step
        kp.1 bp.3 (omega arith) in
    (u, rw run rest, b)

module _ (less : ℕ → ℕ → Bool) where
  descend-IsBalancedTrail :
      (t : Tree) (x : ℕ) (p : Trail)
      → IsBalanced t
      → IsBalancedTrail p (height t)
      → IsBalancedTrail (descend less t x p) 0
  unfolding descend
  descend-IsBalancedTrail leaf x p b q = q
  descend-IsBalancedTrail (node l y h c r) x p b q = elim (Bool-cases (less x y)) [
    | inl lt ↦
        rw (descend, lt) (descend-IsBalancedTrail l x (in_left y h c r ∷ p) b.2 (b.0, b.1, b.3, q))
    | inr ge ↦
        rw (descend, ge) (descend-IsBalancedTrail r x (in_right l y h c ∷ p) b.3 (b.1, b.0, b.2, q))
  ]

  new_node : (x : ℕ) → Returns (fix_node (node leaf x 1 1 leaf)) (Fixed 1 0)
  unfolding fix_node avl_update
  new_node x = (
    avl_update leaf x leaf,
    refl,
    ((refl, refl, tt, tt), refl, ((omega arith, omega arith, tt, tt), inr (refl, inr refl))),
  )

  -- Insertion into a balanced tree with valid caches returns a balanced tree.
  pub avl_insert-IsBalanced :
      (t : Tree) (x : ℕ)
      → IsCached t
      → IsBalanced t
      → size t + 1 < 2 ^ 31
      → Returns (avl_insert less t x) IsBalanced
  unfolding avl_insert
  avl_insert-IsBalanced t x k b small =
      let (q, outside) = descend-IsCachedTrail less t x [] k tt in
      avl_fix-IsBalanced (node leaf x 1 1 leaf) (descend less t x []) 1 0 (new_node x) q
        (descend-IsBalancedTrail t x [] b tt) (omega arith)
