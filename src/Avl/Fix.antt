-- ===== src/Avl/Fix.antt =====
-- The walk of `avl_fix` to the root, and with it `avl_insert`.
use redis_like.Avl.{Tree, leaf, node, in_left, in_right, Trail, root_of, avl_fix}
use redis_like.Avl.Shape.{items, size, IsCached, length-items, fix_node-IsRearranged}
use redis_like.Prelude.{
  ℕ, suc, ◌+◌, ◌^◌, ◌<◌, List, [], ◌∷◌, ◌++◌, ◌≡◌, sym, ap, ◌∙◌, arith, length, append_assoc,
  append-nil, Returns,
}

-- The objects to the left and to the right of a subtree.
abbrev pub before : Trail → List ℕ
before [] = []
before (in_left x h c r ∷ p) = before p
before (in_right l x h c ∷ p) = before p ++ (items l ++ (x ∷ []))

abbrev pub after : Trail → List ℕ
after [] = []
after (in_left x h c r ∷ p) = x ∷ (items r ++ after p)
after (in_right l x h c ∷ p) = after p

-- The other children along the way, and how many nodes stand outside the subtree.
abbrev pub IsCachedTrail : Trail → Type 0
IsCachedTrail [] = Unit
IsCachedTrail (in_left x h c r ∷ p) = IsCached r × IsCachedTrail p
IsCachedTrail (in_right l x h c ∷ p) = IsCached l × IsCachedTrail p

abbrev pub size_outside : Trail → ℕ
size_outside [] = 0
size_outside (in_left x h c r ∷ p) = suc (size r + size_outside p)
size_outside (in_right l x h c ∷ p) = suc (size l + size_outside p)

-- A node whose children are cached.
abbrev pub IsFixable : Tree → Type 0
IsFixable leaf = ⊥
IsFixable (node l x h c r) = IsCached l × IsCached r

pub items-root_of : (t : Tree) (p : Trail) → items (root_of t p) ≡ before p ++ (items t ++ after p)
unfolding root_of
items-root_of t [] = sym (append-nil (items t))
items-root_of t (in_left x h c r ∷ p) = items-root_of (node t x h c r) p ∙ simp append_assoc
items-root_of t (in_right l x h c ∷ p) = items-root_of (node l x h c t) p ∙ simp append_assoc

pub size-root_of : (t : Tree) (p : Trail) → size (root_of t p) ≡ size t + size_outside p
unfolding root_of
size-root_of t [] = omega arith
size-root_of t (in_left x h c r ∷ p) = omega (arith, size-root_of (node t x h c r) p)
size-root_of t (in_right l x h c ∷ p) = omega (arith, size-root_of (node l x h c t) p)

pub size-eq_of_items : (t u : Tree) → items t ≡ items u → size t ≡ size u
size-eq_of_items t u e = omega (arith, length-items t, length-items u, ap length e)

-- The walk to the root returns a cached tree with the nodes in the same order.
pub avl_fix-items :
    (t : Tree) (p : Trail)
    → IsFixable t
    → IsCachedTrail p
    → size t + size_outside p < 2 ^ 31
    → Returns (avl_fix t p) λ t'. IsCached t' × (items t' ≡ before p ++ (items t ++ after p))
unfolding avl_fix
avl_fix-items leaf p k q small = absurd k
avl_fix-items (node l x h c r) [] k q small =
    let (t', run, (k', e)) = fix_node-IsRearranged l x h c r k.0 k.1 (omega arith) in
    (t', run, (k', e ∙ sym (append-nil _)))
avl_fix-items (node l x h c r) (in_left y h' c' s ∷ p) k q small =
    let (t', run, (k', e)) = fix_node-IsRearranged l x h c r k.0 k.1 (omega arith) in
    let same : size t' ≡ size (node l x h c r) = size-eq_of_items t' (node l x h c r) e in
    let (t'', rest, (k'', e')) = avl_fix-items (node t' y h' c' s) p (k', q.0) q.1 (omega arith) in
    (t'', rw run rest, (k'', e' ∙ rw e (simp append_assoc)))
avl_fix-items (node l x h c r) (in_right s y h' c' ∷ p) k q small =
    let (t', run, (k', e)) = fix_node-IsRearranged l x h c r k.0 k.1 (omega arith) in
    let same : size t' ≡ size (node l x h c r) = size-eq_of_items t' (node l x h c r) e in
    let (t'', rest, (k'', e')) = avl_fix-items (node s y h' c' t') p (q.0, k') q.1 (omega arith) in
    (t'', rw run rest, (k'', e' ∙ rw e (simp append_assoc)))
