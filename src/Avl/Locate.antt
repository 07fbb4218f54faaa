-- ===== src/Avl/Locate.antt =====
-- Where a node stands, and its rank.
use redis_like.Avl.{Tree, leaf, node, in_left, in_right, Trail, root_of, locate}
use redis_like.Avl.Sorted.{occurs}
use redis_like.Avl.Shape.{items, IsCached}
use redis_like.Avl.Fix.{IsCachedTrail}
use redis_like.Prelude.{
  ℕ, ◌==◌, false, Option, none, some, ◌∷◌, ◌++◌, ◌≡◌, refl, inl, inr, arith, count-append,
  Bool-cases, Option-cases, ==_iff,
}

-- What `locate` answers about the objects of `t`, reached by `p`.
pub data Located (x : ℕ) (t : Tree) (p : Trail) : Option (Tree × Trail) → Type 0 where
  missing : occurs x (items t) ≡ 0 → Located x t p none
  at :
      (l : Tree) (h c : ℕ) (r : Tree) (q : Trail)
      → root_of (node l x h c r) q ≡ root_of t p
      → (IsCached t → IsCachedTrail p → IsCached (node l x h c r) × IsCachedTrail q)
      → Located x t p (some (node l x h c r, q))

both :
    (x y : ℕ) (l r : Tree)
    → (y == x) ≡ false
    → occurs x (items l) ≡ 0
    → occurs x (items r) ≡ 0
    → occurs x (items l ++ (y ∷ items r)) ≡ 0
both x y l r other a b = ground (arith, count-append (λ z. z == x) (items l) (y ∷ items r))

module _ (x : ℕ) where
  Located-left :
      (l : Tree) (y h c : ℕ) (r : Tree) (p : Trail) (found : Tree × Trail)
      → Located x l (in_left y h c r ∷ p) (some found)
      → Located x (node l y h c r) p (some found)
  unfolding root_of
  Located-left l y h c r p _ (at l' h' c' r' q e k) =
      at l' h' c' r' q e (λ kt kp. k kt.2 (kt.3, kp))

  Located-right :
      (l : Tree) (y h c : ℕ) (r : Tree) (p : Trail) (found : Option (Tree × Trail))
      → (y == x) ≡ false
      → occurs x (items l) ≡ 0
      → Located x r (in_right l y h c ∷ p) found
      → Located x (node l y h c r) p found
  unfolding root_of
  Located-right l y h c r p none other absent (missing z) = missing (both x y l r other absent z)
  Located-right l y h c r p (some _) other absent (at l' h' c' r' q e k) =
      at l' h' c' r' q e (λ kt kp. k kt.3 (kt.2, kp))

  absent_of_none : (t : Tree) (p : Trail) → Located x t p none → occurs x (items t) ≡ 0
  absent_of_none t p (missing z) = z

  pub locate-Located : (t : Tree) (p : Trail) → Located x t p (locate x t p)
  unfolding locate
  locate-Located leaf p = missing refl
  locate-Located (node l y h c r) p =
      let left = locate-Located l (in_left y h c r ∷ p) in
      let right = locate-Located r (in_right l y h c ∷ p) in
      elim (Bool-cases (y == x)) [
        | inl same ↦
            let e : y ≡ x = (==_iff y x).0 same in
            rw (locate, same) (rw e (at l h c r p refl (λ kt kp. (kt, kp))))
        | inr other ↦
            rw (locate, other)
              (elim (Option-cases (locate x l (in_left y h c r ∷ p))) [
                | inl gone ↦
                    rw (locate, gone)
                      (Located-right l y h c r p (locate x r (in_right l y h c ∷ p)) other
                        (absent_of_none l (in_left y h c r ∷ p) (rw gone at left)) right)
                | inr (found, here) ↦
                    rw (locate, here) (Located-left l y h c r p found (rw here at left))
              ])
      ]
