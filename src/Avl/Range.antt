-- ===== src/Avl/Range.antt =====
-- `avl_range_by_rank` of server/src/data_structures/avl.cpp takes a stretch of the traversal.
use redis_like.Avl.{Tree, leaf, node, in_range, collect_in_range, avl_range_by_rank}
use redis_like.Avl.Shape.{items, size, length-items}
use redis_like.Prelude.{
  ℕ, suc, ◌+◌, ◌^◌, ◌≤◌, ◌<◌, if◌then◌else◌, true, false, List, [], ◌∷◌, ◌++◌, ◌≡◌, refl, sym, ap,
  subst, ◌∙◌, ◌⊎◌, inl, inr, arith, length, append_assoc, append-nil, Bool-cases, ℤ, pos, ltb_ℤ,
  leb_ℤ,
}
use redis_like.Prelude.{zero, ltb, ◌-◌, Bool, pos_part, take, drop, ok, ◌>>=◌}

-- The elements of ranks `lo` to `hi`, counted from 1.
abbrev pub slice {ℓ} : {A : Type ℓ} → ℤ → ℤ → List A → List A
slice lo hi xs = take (pos_part hi - (pos_part lo - 1)) (drop (pos_part lo - 1) xs)

take-nil : {A : Type 0} (n : ℕ) → take {A = A} n [] ≡ []
take-nil zero = refl
take-nil (suc n) = refl

module _ {A : Type 0} (lo hi : ℤ) where
  -- Of objects ranked from `rank` on, those whose rank is in the range.
  abbrev pub ranked : ℕ → List A → List A
  ranked rank [] = []
  ranked rank (x ∷ xs) =
      if in_range lo hi rank then x ∷ ranked (rank + 1) xs else ranked (rank + 1) xs

  ranked-append :
      (rank : ℕ) (xs ys : List A)
      → ranked rank (xs ++ ys) ≡ ranked rank xs ++ ranked (rank + length xs) ys
  ranked-append rank [] ys = let e : rank + 0 ≡ rank = omega arith in rw e refl
  ranked-append rank (x ∷ xs) ys =
      let e : rank + suc (length xs) ≡ rank + 1 + length xs = omega arith in
      rw (e, ranked-append (rank + 1) xs ys)
        (elim (Bool-cases (in_range lo hi rank)) [
          | inl here ↦ rw here refl
          | inr out ↦ rw out refl
        ])

  ranked_past : (rank : ℕ) (xs : List A) → ltb_ℤ hi (pos rank) ≡ true → ranked rank xs ≡ []
  ranked_past rank [] h = refl
  ranked_past rank (x ∷ xs) h =
      let out : in_range lo hi rank ≡ false = ground arith in
      rw out (ranked_past (rank + 1) xs (ground arith))

  -- From the rank on, `skipped` objects are before the range, and `wanted` up to its end.
  ranked-take :
      (rank : ℕ) (xs : List A) (skipped wanted : ℕ)
      → 1 ≤ rank
      → skipped ≡ pos_part lo - rank
      → wanted ≡ pos_part hi + 1 - rank
      → ranked rank xs ≡ take (wanted - skipped) (drop skipped xs)
  ranked-take rank [] zero wanted h e e' = sym (take-nil (wanted - 0))
  ranked-take rank [] (suc skipped) wanted h e e' = sym (take-nil (wanted - suc skipped))
  ranked-take rank (x ∷ xs) (suc skipped) wanted h e e' =
      let out : in_range lo hi rank ≡ false = ground arith in
      let same : wanted - suc skipped ≡ wanted - 1 - skipped = omega arith in
      rw (out, same)
        (ranked-take (rank + 1) xs skipped (wanted - 1) (omega arith) (omega arith) (omega arith))
  ranked-take rank (x ∷ xs) zero (suc wanted) h e e' =
      let here : in_range lo hi rank ≡ true = ground arith in
      let rest = ranked-take (rank + 1) xs 0 wanted (omega arith) (omega arith) (omega arith) in
      let one : wanted - 0 ≡ wanted = omega arith in
      let two : suc wanted ≡ suc wanted - 0 = omega arith in
      rw here (ap (λ w. x ∷ w) (rest ∙ ap (λ n. take n xs) one) ∙ ap (λ n. take n (x ∷ xs)) two)
  ranked-take rank (x ∷ xs) zero zero h e e' =
      let out : in_range lo hi rank ≡ false = ground arith in
      rw out (ranked-take (rank + 1) xs 0 0 (omega arith) (omega arith) (omega arith))

  pub ranked-slice : (xs : List A) → ranked 1 xs ≡ slice lo hi xs
  ranked-slice xs =
      let e : pos_part hi + 1 - 1 ≡ pos_part hi = omega arith in
      ranked-take 1 xs (pos_part lo - 1) (pos_part hi) (omega arith) refl (sym e)

module _ (lo hi : ℤ) where
  -- What the recursion leaves: the rank after the subtree, or one past the range.
  abbrev Counted : ℕ → ℕ → Type 0
  Counted rank rank' = (rank' ≡ rank) ⊎ ((ltb_ℤ hi (pos rank') ≡ true) × (rank' ≤ rank))

  -- The visit of the node itself, and the branch to the right subtree, whose visit is `right`.
  abbrev visited : ℕ → ℕ → List ℕ → List ℕ
  visited x rank result = if in_range lo hi rank then result ++ (x ∷ []) else result

  abbrev then_right : ℕ → List ℕ → ℕ × List ℕ → ℕ × List ℕ
  then_right rank here right = if leb_ℤ (pos (rank + 1)) hi then right else (rank + 1, here)

  -- The recursion, with ranks that do not overflow.
  abbrev collected : Tree → ℕ → List ℕ → ℕ × List ℕ
  collected leaf rank result = (rank, result)
  collected (node l x h c r) rank result =
      let (rank', result') = collected l rank result in
      let here = if in_range lo hi rank' then result' ++ x ∷ [] else result' in
      let right = collected r (rank' + 1) here in
      if ltb_ℤ hi (pos rank)
      then (rank, result)
      else if leb_ℤ (pos (rank' + 1)) hi
      then right
      else (rank' + 1, here)

  abbrev Collects : List ℕ → ℕ → List ℕ → ℕ → ℕ × List ℕ → Type 0
  Collects result rank xs n r = (r.1 ≡ result ++ ranked lo hi rank xs) × Counted (rank + n) r.0

  visit_exact :
      (x : ℕ) (r : Tree) (rank : ℕ) (result : List ℕ) (right : ℕ × List ℕ)
      → Collects (visited x rank result) (rank + 1) (items r) (size r) right
      → Collects result rank
          (x ∷ items r)
          (suc (size r))
          (then_right rank (visited x rank result) right)
  visit_exact x r rank result right (e, n) = elim (Bool-cases (leb_ℤ (pos (rank + 1)) hi)) [
    | inl more ↦
        let count : Counted (rank + suc (size r)) right.0 = ground arith in
        rw more (e ∙ joined, count)
    | inr done ↦
        let past : ltb_ℤ hi (pos (rank + 1)) ≡ true = ground arith in
        let nothing = ranked_past lo hi (rank + 1) (items r) past in
        rw done (
          sym (append-nil _) ∙ ap (λ w. visited x rank result ++ w) (sym nothing) ∙ joined,
          inr (past, omega arith),
        )
  ]
    where
      joined :
          visited x rank result ++ ranked lo hi (rank + 1) (items r)
          ≡ result ++ ranked lo hi rank (x ∷ items r)
      joined = elim (Bool-cases (in_range lo hi rank)) [
        | inl here ↦ rw here (append_assoc result (x ∷ []) (ranked lo hi (rank + 1) (items r)))
        | inr out ↦ rw out refl
      ]

  visit_past :
      (x : ℕ) (r : Tree) (rank n : ℕ) (result : List ℕ) (right : ℕ × List ℕ)
      → ltb_ℤ hi (pos rank) ≡ true
      → rank ≤ n
      → Collects result n
          (x ∷ items r)
          (suc (size r))
          (then_right rank (visited x rank result) right)
  visit_past x r rank n result right past le =
      let out : in_range lo hi rank ≡ false = ground arith in
      let stop : leb_ℤ (pos (rank + 1)) hi ≡ false = ground arith in
      let later : ltb_ℤ hi (pos n) ≡ true = ground arith in
      let next : ltb_ℤ hi (pos (rank + 1)) ≡ true = ground arith in
      rw (out, stop, ranked_past lo hi n (x ∷ items r) later)
        (sym (append-nil result), inr (next, omega arith))

  join :
      (l r : Tree) (x rank : ℕ) (result result' : List ℕ) (out : ℕ × List ℕ)
      → result' ≡ result ++ ranked lo hi rank (items l)
      → Collects result' (rank + size l) (x ∷ items r) (suc (size r)) out
      → Collects result rank (items l ++ (x ∷ items r)) (suc (size l + size r)) out
  join l r x rank result result' out e (e', n) =
      let sum : rank + size l + suc (size r) ≡ rank + suc (size l + size r) = omega arith in
      (
        e'
            ∙ rw (e, ranked-append lo hi rank (items l) (x ∷ items r), length-items l)
                (append_assoc result (ranked lo hi rank (items l))
                  (ranked lo hi (rank + size l) (x ∷ items r))),
        subst (λ w. Counted w out.0) sum n,
      )

  visit :
      (x : ℕ) (r : Tree) (rank n : ℕ) (result : List ℕ) (right : ℕ × List ℕ)
      → Counted n rank
      → Collects (visited x rank result) (rank + 1) (items r) (size r) right
      → Collects result n
          (x ∷ items r)
          (suc (size r))
          (then_right rank (visited x rank result) right)
  visit x r rank n result right (inl e) k =
      subst
        (λ w.
          Collects result w (x ∷ items r) (suc (size r))
            (then_right rank (visited x rank result) right))
        e (visit_exact x r rank result right k)
  visit x r rank n result right (inr (past, le)) k = visit_past x r rank n result right past le

  collected-ranked :
      (t : Tree) (rank : ℕ) (result : List ℕ)
      → Collects result rank (items t) (size t) (collected t rank result)
  collected-ranked leaf rank result = (sym (append-nil result), inl (omega arith))
  collected-ranked (node l x h c r) rank result =
      let (rank', result') = collected l rank result in
      let (e, n) = collected-ranked l rank result in
      let k = collected-ranked r (rank' + 1) (visited x rank' result') in
      elim (Bool-cases (ltb_ℤ hi (pos rank))) [
        | inl past ↦ rw past (
          rw (ranked_past lo hi rank (items l ++ (x ∷ items r)) past) (sym (append-nil result)),
          inr (past, omega arith),
        )
        | inr go ↦ rw go (
            join l r x rank result result' _ e (
              visit x r rank' (rank + size l) result'
                (collected r (rank' + 1) (visited x rank' result')) n k))
      ]

  -- An `int` holds the ranks of fewer than 2 ^ 31 - 1 objects.
  collect_in_range-collected :
      (t : Tree) (rank : ℕ) (result : List ℕ)
      → rank + size t < 2 ^ 31
      → collect_in_range t rank lo hi result ≡ ok (collected t rank result)
  unfolding collect_in_range
  collect_in_range-collected leaf rank result small = refl
  collect_in_range-collected (node l x h c r) rank result small =
      let (rank', result') = collected l rank result in
      let here = visited x rank' result' in
      let le : rank' ≤ rank + size l = at_most (collected-ranked l rank result).1 in
      let fits : ltb (rank' + 1) (2 ^ 31) ≡ true = ground arith in
      elim (Bool-cases (ltb_ℤ hi (pos rank))) [
        | inl past ↦ rw (collect_in_range, past) refl
        | inr go ↦
            let left = collect_in_range-collected l rank result (omega arith) in
            let right = collect_in_range-collected r (rank' + 1) here (omega arith) in
            rw (collect_in_range, go, left, fits, right) (ok_if (leb_ℤ (pos (rank' + 1)) hi) _ _)
      ]
    where
      at_most : {n rank' : ℕ} → Counted n rank' → rank' ≤ n
      at_most (inl e) = omega arith
      at_most (inr (past, le)) = le

      ok_if : (b : Bool) (x y : ℕ × List ℕ) → (if b then ok x else ok y) ≡ ok (if b then x else y)
      ok_if true x y = refl
      ok_if false x y = refl

  ranked_empty : ltb_ℤ hi lo ≡ true → (rank : ℕ) (xs : List ℕ) → ranked lo hi rank xs ≡ []
  ranked_empty h rank [] = refl
  ranked_empty h rank (y ∷ ys) =
      let out : in_range lo hi rank ≡ false = ground arith in rw out (ranked_empty h (rank + 1) ys)

  pub avl_range_by_rank-ranked :
      (t : Tree) → size t + 1 < 2 ^ 31 → avl_range_by_rank t lo hi ≡ ok (ranked lo hi 1 (items t))
  unfolding avl_range_by_rank
  avl_range_by_rank-ranked leaf small = refl
  avl_range_by_rank-ranked (node l x h c r) small = elim (Bool-cases (ltb_ℤ hi lo)) [
    | inl empty ↦ rw empty (ap ok (sym (ranked_empty empty 1 (items l ++ (x ∷ items r)))))
    | inr go ↦
        let t = node l x h c r in
        let run = collect_in_range-collected t 1 [] (omega arith) in
        rw go (ap (λ c. c >>= λ r. ok r.1) run ∙ ap ok (collected-ranked t 1 []).0)
  ]

  -- The objects of a tree of fewer than 2 ^ 31 - 1 objects whose rank in the traversal, counted from
  -- 1, lies between the signed bounds, are what `avl_range_by_rank` lists: the traversal without the
  -- objects before the lower bound, up to the upper one. Its early exits leave nothing out.
  pub avl_range_by_rank-slice :
      (t : Tree) → size t + 1 < 2 ^ 31 → avl_range_by_rank t lo hi ≡ ok (slice lo hi (items t))
  avl_range_by_rank-slice t small =
      avl_range_by_rank-ranked t small ∙ ap ok (ranked-slice lo hi (items t))
