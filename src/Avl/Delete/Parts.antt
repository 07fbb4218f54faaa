-- ===== src/Avl/Delete/Parts.antt =====
-- The parts of `avl_delete_`: a node with one child at most, the successor, and the caches above a node.
use redis_like.Avl.{
  Tree, leaf, node, in_left, in_right, Trail, root_of, only_child, avl_del, leftmost,
}
use redis_like.Avl.Shape.{items, size, height, IsCached}
use redis_like.Avl.Fix.{before, after, IsCachedTrail, size_outside, avl_fix-items}
use redis_like.Prelude.{
  ℕ, suc, ◌+◌, ◌^◌, ◌≤◌, ◌<◌, [], ◌∷◌, ◌++◌, ◌≡◌, refl, sym, ◌∙◌, ◌⊎◌, inl, inr, arith,
  append_assoc, append-nil, Returns,
}

IsCached-below : (t : Tree) (p : Trail) → IsCached (root_of t p) → IsCached t
unfolding root_of
IsCached-below t [] k = k
IsCached-below t (in_left x h c r ∷ p) k = (IsCached-below (node t x h c r) p k).2
IsCached-below t (in_right l x h c ∷ p) k = (IsCached-below (node l x h c t) p k).3

-- What stands outside a node keeps its caches when a subtree of the same size and height comes in.
pub IsCached-root_of :
    (t u : Tree) (p : Trail)
    → IsCached u
    → height u ≡ height t
    → size u ≡ size t
    → IsCached (root_of t p)
    → IsCached (root_of u p)
unfolding root_of
IsCached-root_of t u [] ku h s k = ku
IsCached-root_of t u (in_left x g c r ∷ p) ku h s k =
    let kt = IsCached-below (node t x g c r) p k in
    IsCached-root_of (node t x g c r) (node u x g c r) p
      (omega (arith, kt.0), omega (arith, kt.1), ku, kt.3) (omega arith) (omega arith) k
IsCached-root_of t u (in_right l x g c ∷ p) ku h s k =
    let kt = IsCached-below (node l x g c t) p k in
    IsCached-root_of (node l x g c t) (node l x g c u) p
      (omega (arith, kt.0), omega (arith, kt.1), kt.2, ku) (omega arith) (omega arith) k

-- A node without a left or a right child.
abbrev pub HasOneChild : Tree → Tree → Type 0
HasOneChild l r = (l ≡ leaf) ⊎ (r ≡ leaf)

items-only_child : (l r : Tree) → HasOneChild l r → items (only_child l r) ≡ items l ++ items r
items-only_child leaf r one = refl
items-only_child (node a y h c b) r (inl e) = absurd (node≢leaf e)
  where
    node≢leaf : node a y h c b ≡ leaf → ⊥
    node≢leaf e = cc
items-only_child (node a y h c b) r (inr e) = rw e (sym (append-nil (items (node a y h c b))))

only_child-IsCached : (l r : Tree) → IsCached l → IsCached r → IsCached (only_child l r)
only_child-IsCached leaf r kl kr = kr
only_child-IsCached (node a y h c b) r kl kr = kl

size-only_child : (l r : Tree) → size (only_child l r) ≤ size l + size r
size-only_child leaf r = omega arith
size-only_child (node a y h c b) r = omega arith

-- Deleting a node with one child at most keeps all the others in order.
pub avl_del-items :
    (l : Tree) (x h c : ℕ) (r : Tree) (p : Trail)
    → HasOneChild l r
    → IsCached l
    → IsCached r
    → IsCachedTrail p
    → size l + size r + size_outside p < 2 ^ 31
    → Returns
        (avl_del (node l x h c r) p)
        λ t. IsCached t × (items t ≡ before p ++ (items l ++ (items r ++ after p)))
unfolding avl_del
avl_del-items l x h c r [] one kl kr q small = (
  only_child l r,
  refl,
  (only_child-IsCached l r kl kr, items-only_child l r one ∙ simp append-nil),
)
avl_del-items l x h c r (in_left y h' c' s ∷ p) one kl kr q small =
    let (t, run, (k, e)) =
      avl_fix-items (node (only_child l r) y h' c' s) p (only_child-IsCached l r kl kr, q.0) q.1
        (omega (arith, size-only_child l r)) in
    (t, run, (k, e ∙ rw (items-only_child l r one) (simp append_assoc)))
avl_del-items l x h c r (in_right s y h' c' ∷ p) one kl kr q small =
    let (t, run, (k, e)) =
      avl_fix-items (node s y h' c' (only_child l r)) p (q.0, only_child-IsCached l r kl kr) q.1
        (omega (arith, size-only_child l r)) in
    (t, run, (k, e ∙ rw (items-only_child l r one) (simp append_assoc)))

-- The successor, where the walk ends.
pub record Leftmost (t : Tree) (p : Trail) (r : Tree × Trail) : Type 0 where
  pub object : ℕ
  pub height : ℕ
  pub cnt : ℕ
  pub right : Tree
  pub is_last : r.0 ≡ node leaf object height cnt right
  pub same_before : before r.1 ≡ before p
  pub first : items t ++ after p ≡ object ∷ (items right ++ after r.1)
  pub right_cached : IsCached right
  pub trail_cached : IsCachedTrail r.1
  pub outside : suc (size right + size_outside r.1) ≡ size t + size_outside p

pub leftmost-Leftmost :
    (a : Tree) (x h c : ℕ) (b : Tree) (p : Trail)
    → IsCached (node a x h c b)
    → IsCachedTrail p
    → Leftmost (node a x h c b) p (leftmost (node a x h c b) p)
unfolding leftmost
leftmost-Leftmost leaf x h c b p k q = record {
  object = x;
  height = h;
  cnt = c;
  right = b;
  is_last = refl;
  same_before = refl;
  first = refl;
  right_cached = k.3;
  trail_cached = q;
  outside = omega arith;
}
leftmost-Leftmost (node d y h' c' e) x h c b p k q =
    let m = leftmost-Leftmost d y h' c' e (in_left x h c b ∷ p) k.2 (k.3, q) in
    record {
      object = m.object;
      height = m.height;
      cnt = m.cnt;
      right = m.right;
      is_last = m.is_last;
      same_before = m.same_before;
      first = append_assoc (items (node d y h' c' e)) (x ∷ items b) (after p) ∙ m.first;
      right_cached = m.right_cached;
      trail_cached = m.trail_cached;
      outside = omega (arith, m.outside);
    }
