-- ===== src/Avl/Delete.antt =====
-- `avl_delete_` removes the one object from the traversal, with its caches right.
mod Parts
use Parts.{IsCached-root_of, avl_del-items, Leftmost, leftmost-Leftmost}
use redis_like.Avl.{
  Tree, leaf, node, Frame, in_left, in_right, Trail, plug, root_of, avl_update, avl_fix, locate,
  only_child, avl_del, leftmost, replace, delete_at, avl_delete_,
}
use redis_like.Avl.Sorted.{occurs, remove, substitute, remove_once, substitute_once}
use redis_like.Avl.Locate.{Located, missing, at, locate-Located}
use redis_like.Avl.Shape.{items, size, height, IsCached, length-items, avl_update-IsCached}
use redis_like.Avl.Fix.{
  before, after, IsCachedTrail, size_outside, IsFixable, items-root_of, size-root_of, avl_fix-items,
}
use redis_like.Prelude.{
  ℕ, zero, suc, ◌+◌, ◌%◌, ◌^◌, ◌≤◌, ◌<◌, ◌==◌, if◌then◌else◌, Bool, true, false, Option, none, some,
  List, [], ◌∷◌, ◌++◌, ◌≡◌, refl, sym, ap, subst, ◌∙◌, ◌⊎◌, inl, inr, arith, length, length-append,
  count, count-append, append_assoc, append-nil, Run, ok, ◌>>=◌, Returns, Bool-cases,
}

module _ (x : ℕ) where
  occurs-split : (xs a b : List ℕ) → xs ≡ a ++ (x ∷ b) → occurs x xs ≡ suc (occurs x a + occurs x b)
  occurs-split xs a b e =
      let here : (x == x) ≡ true = ground arith in
      rw (e, count-append (λ y. y == x) a (x ∷ b), here) (omega arith)

  -- The successor in the place of `x`.
  replaced :
      (t : Tree) (s h c : ℕ) (r' : Tree) (a b : List ℕ) (found : Option (Tree × Trail))
      → IsCached t
      → size t < 2 ^ 31
      → items t ≡ a ++ (x ∷ b)
      → occurs x (items t) ≤ 1
      → locate x t [] ≡ found
      → Located x t [] found
      → Returns (replace t x (node leaf s h c r')) λ t'. IsCached t' × (items t' ≡ a ++ (s ∷ b))
  unfolding replace avl_update root_of
  replaced t s h c r' a b none k small e once run (missing z) =
      absurd (omega (arith, occurs-split (items t) a b e))
  replaced t s h c r' a b (some _) k small e once run (at l h' c' r q root cached) =
      let (kt, kq) = cached k tt in
      let whole : items t ≡ (before q ++ items l) ++ (x ∷ (items r ++ after q)) =
        ap items (sym root) ∙ items-root_of (node l x h' c' r) q ∙ simp append_assoc in
      let result : items (root_of (avl_update l s r) q)
          ≡ (before q ++ items l) ++ (s ∷ (items r ++ after q)) =
        items-root_of (avl_update l s r) q ∙ simp append_assoc in
      let fits = ap size (sym root) ∙ size-root_of (node l x h' c' r) q in
      let once' = subst (λ w. occurs x w ≤ 1) whole once in
      let once'' = subst (λ w. occurs x w ≤ 1) e once in
      (
        root_of (avl_update l s r) q,
        rw (replace, run) refl,
        (
          IsCached-root_of (node l x h' c' r) (avl_update l s r) q
              (avl_update-IsCached l s r kt.2 kt.3 (omega arith)) refl refl
              (subst IsCached (sym root) k),
          result
              ∙ sym (substitute_once x s (before q ++ items l) (items r ++ after q) once')
              ∙ ap (substitute x s) (sym whole ∙ e)
              ∙ substitute_once x s a b once'',
        ),
      )

  module _ (t : Tree) (k : IsCached t) (small : size t < 2 ^ 31)
      (once : occurs x (items t) ≡ 1) where
    regroup :
        (l r : Tree) (p : Trail) (s : ℕ) (rest : List ℕ)
        → items r ++ after p ≡ s ∷ rest
        → before p ++ ((items l ++ (x ∷ items r)) ++ after p)
          ≡ (before p ++ items l) ++ (x ∷ (s ∷ rest))
    regroup l r p s rest e = simp append_assoc (ap (λ w. before p ++ (items l ++ (x ∷ w))) e)

    -- Without the successor the tree is smaller.
    smaller :
        (t1 : Tree) (a b : List ℕ) (s : ℕ)
        → items t ≡ a ++ (x ∷ (s ∷ b))
        → items t1 ≡ a ++ (x ∷ b)
        → size t1 < 2 ^ 31
    smaller t1 a b s e e1 = omega (
      arith,
      length-items t,
      length-items t1,
      ap length e,
      ap length e1,
      length-append a (x ∷ (s ∷ b)),
      length-append a (x ∷ b),
    )

    -- The node stands here, with what it splits the traversal into.
    deleted_at :
        (l : Tree) (h c : ℕ) (r : Tree) (p : Trail)
        → root_of (node l x h c r) p ≡ t
        → IsCached (node l x h c r)
        → IsCachedTrail p
        → Returns
            (delete_at (node l x h c r) p)
            λ t'. IsCached t' × (items t' ≡ (before p ++ items l) ++ (items r ++ after p))
    unfolding delete_at
    deleted_at leaf h c r p root kn kp =
        let fits = ap size (sym root) ∙ size-root_of (node leaf x h c r) p in
        let (t', run, (k', e)) = avl_del-items leaf x h c r p (inl refl) tt kn.3 kp (omega arith) in
        (t', run, (k', e ∙ simp append-nil))
    deleted_at (node a y h' c' b) h c leaf p root kn kp =
        let fits = ap size (sym root) ∙ size-root_of (node (node a y h' c' b) x h c leaf) p in
        let (t', run, (k', e)) =
          avl_del-items (node a y h' c' b) x h c leaf p (inr refl) kn.2 tt kp (omega arith) in
        (t', run, (k', e ∙ simp append_assoc))
    deleted_at (node a y h' c' b) h c (node d z h'' c'' e) p root kn kp =
        let left = node a y h' c' b in
        let q : Trail = in_right left x h c ∷ p in
        let m = leftmost-Leftmost d z h'' c'' e q kn.3 (kn.2, kp) in
        let out = leftmost (node d z h'' c'' e) q in
        let rest = items m.right ++ after out.1 in
        let fits = ap size (sym root) ∙ size-root_of (node left x h c (node d z h'' c'' e)) p in
        let (t1, del, (k1, e1)) =
          avl_del-items leaf m.object m.height m.cnt m.right out.1 (inl refl) tt m.right_cached
            m.trail_cached (omega (arith, m.outside)) in
        let whole : items t ≡ (before p ++ items left) ++ (x ∷ (m.object ∷ rest)) =
          ap items (sym root)
          ∙ items-root_of (node left x h c (node d z h'' c'' e)) p
          ∙ regroup left (node d z h'' c'' e) p m.object rest m.first in
        let split : items t1 ≡ (before p ++ items left) ++ (x ∷ rest) =
          e1 ∙ rw m.same_before (simp append_assoc) in
        let (t2, put, (k2, e2)) =
          replaced t1 m.object m.height m.cnt m.right (before p ++ items left) rest (locate x t1 [])
            k1 (smaller t1 (before p ++ items left) rest m.object whole split) split
            (omega (
              arith,
              occurs-split (items t) (before p ++ items left) (m.object ∷ rest) whole,
              occurs-split (items t1) (before p ++ items left) rest split,
            ))
            refl (locate-Located x t1 []) in
        (
          t2,
          rw (m.is_last, del) put,
          (k2, e2 ∙ ap (λ w. (before p ++ items left) ++ w) (sym m.first)),
        )

    deleted :
        (found : Option (Tree × Trail))
        → locate x t [] ≡ found
        → Located x t [] found
        → Returns (avl_delete_ t x) λ t'. IsCached t' × (items t' ≡ remove x (items t))
    unfolding avl_delete_ root_of
    deleted none run (missing z) = absurd (omega arith)
    deleted (some _) run (at l h c r p root cached) =
        let (kn, kp) = cached k tt in
        let (t', del, (k', e)) = deleted_at l h c r p root kn kp in
        let whole : items t ≡ (before p ++ items l) ++ (x ∷ (items r ++ after p)) =
          ap items (sym root) ∙ items-root_of (node l x h c r) p ∙ simp append_assoc in
        let once' : occurs x ((before p ++ items l) ++ (x ∷ (items r ++ after p))) ≤ 1 =
          subst (λ w. occurs x w ≤ 1) whole (omega arith) in
        (
          t',
          rw (avl_delete_, run) del,
          (
            k',
            e
                ∙ sym (remove_once x (before p ++ items l) (items r ++ after p) once')
                ∙ ap (remove x) (sym whole),
          ),
        )

    -- `avl_delete_` of an object that the tree holds once returns a tree with valid caches, and its
    -- traversal is the old one without the object.
    pub avl_delete_-items :
        Returns (avl_delete_ t x) λ t'. IsCached t' × (items t' ≡ remove x (items t))
    avl_delete_-items = deleted (locate x t []) refl (locate-Located x t [])
