-- ===== src/Store/Members/Reads.antt =====
-- What the reads of a sorted set in server/src/data_structures/zset.cpp answer.
use redis_like.Avl.{avl_inorder, avl_rank}
use redis_like.Avl.Range.{slice, ranked, ranked-slice, avl_range_by_rank-ranked}
use redis_like.Avl.Rank.{avl_rank-items}
use redis_like.Avl.Shape.{items, size, inorder-items, length-items}
use redis_like.Avl.Sorted.{occurs, All-append}
use redis_like.HashTable.Map.{HMap, hm_lookup}
use redis_like.HashTable.Map.Find.{hm_size-tally}
use redis_like.HashTable.Map.Valid.{tally}
use redis_like.HashTable.Tab.{HNode}
use redis_like.Store.Contents.{has_key}
use redis_like.Store.Members.{
  read_entries, equals_entry, to_int, zscore, zrank, zcard, zrange, zall,
}
use redis_like.Store.Members.Entries.{
  Numbered, length-entries_at, score_of_absent, score_of_split, read_entries-pairs, stretch-ranked,
  All-ranked,
}
use redis_like.Store.Members.Ordered.{IsOrderedSet, Hit, absent, present, lookup-Hit}
use redis_like.Store.Members.Ranking.{entries_at, ranking, score_of, rank_of, pairs}
use redis_like.Store.Objects.{Bytes, Double, Entry, entry_keyed, Value, hash, load}
use redis_like.Prelude.{
  ◌>>=◌, ◌+◌, ℕ, suc, ◌^◌, ◌<◌, ◌==◌, true, false, Option, none, some, List, [], ◌∷◌, length-append,
  ◌≡◌, refl, sym, ap, subst, ◌∙◌, arith, All, length, count-append, ok, Returns, ℤ, pos, lt→ltb,
}

to_int-pos : (n : ℕ) → n < 2 ^ 31 → to_int n ≡ pos n
unfolding to_int
to_int-pos n small = rw (lt→ltb n (2 ^ 31) small) refl

-- A rank as the result of the call.
abbrev pub int_of : Option ℕ → Option ℤ
int_of none = none
int_of (some rank) = some (pos rank)

module _ {Score : Type 0} (double : Double Score) (v : Value Score)
    (s : IsOrderedSet double v) where
  small : size v.tree < 2 ^ 31
  small = omega (arith, s.sized, s.table.valid.small)

  -- An entry that was found, with those before it.
  located :
      (name : Bytes) (n : HNode) (e : Entry Score)
      → v.entries n.object ≡ some e
      → e.name ≡ name
      → All (λ b. has_key (v.entries b) name ≡ (b == n.object)) (items v.tree)
      → occurs n.object (items v.tree) ≡ 1
      → (rank : ℕ) × (avl_rank v.tree (some n.object) ≡ rank)
        × (rank < 2 ^ 31)
        × (score_of name (ranking v) ≡ some e.score)
        × (rank_of name (ranking v) ≡ some rank)
  located name n e at named others once =
      let (a, b, split, rank) = avl_rank-items v.tree n.object s.cached small (omega arith) in
      let (nums, _) =
        All-append (Numbered double v.entries) a (n.object ∷ b)
          (subst (All (Numbered double v.entries)) split s.numbered) in
      let (keys, _) =
        All-append (λ b. has_key (v.entries b) name ≡ (b == n.object)) a (n.object ∷ b)
          (subst (All (λ b. has_key (v.entries b) name ≡ (b == n.object))) split others) in
      let once' = subst (λ w. occurs n.object w ≡ 1) split once in
      let here : (n.object == n.object) ≡ true = ground arith in
      let before : occurs n.object a ≡ 0 =
        ground (arith, once', here, count-append (λ y. y == n.object) a (n.object ∷ b)) in
      let (sc, rk) =
        score_of_split double v.entries name n.object e a b nums (misses a keys before) at named in
      let lt : suc (length a) < 2 ^ 31 =
        omega
          (arith, small, ap length split, length-append a (n.object ∷ b), length-items v.tree) in
      (
        suc (length a),
        rank,
        lt,
        ap (λ w. score_of name (entries_at v.entries w)) split ∙ sc,
        ap (λ w. rank_of name (entries_at v.entries w)) split ∙ rk,
      )
    where
      misses :
          (xs : List ℕ)
          → All (λ b. has_key (v.entries b) name ≡ (b == n.object)) xs
          → occurs n.object xs ≡ 0
          → All (λ b. has_key (v.entries b) name ≡ false) xs
      misses [] k z = tt
      misses (x ∷ xs) (h, k) z =
          let off : (x == n.object) ≡ false = ground arith in (h ∙ off, misses xs k (omega arith))

  module _ (name : Bytes) where
    -- `zscore` returns the score of the name in the ranking, and reports where there is none. The
    -- set is as it was.
    pub zscore-ranking :
        Returns (zscore v name) λ r.
          IsOrderedSet double r.1 × (ranking r.1 ≡ ranking v) × (r.0 ≡ score_of name (ranking v))
    unfolding zscore
    zscore-ranking =
        let ((node, m), run, (s', _, h)) = lookup-Hit double v name s in from node m run s' h
      where
        from :
            (node : Option HNode) (m : HMap)
            → hm_lookup v.hmap (hash name) (equals_entry v.entries name) ≡ ok (node, m)
            → IsOrderedSet double (record v { hmap = m })
            → Hit double v name node
            → Returns (zscore v name) λ r.
              IsOrderedSet double r.1
              × (ranking r.1 ≡ ranking v)
              × (r.0 ≡ score_of name (ranking v))
        from none m run s' (absent _ k) =
            let (sc, _) = score_of_absent double v.entries name (items v.tree) k in
            ((none, record v { hmap = m }), rw (zscore, run) refl, (s', refl, sym sc))
        from (some _) m run s' (present n e k at named others once) =
            let (_, _, _, sc, _) = located name n e at named others once in
            (
              (some e.score, record v { hmap = m }),
              rw (zscore, run) (rw (load, at) refl),
              (s', refl, sym sc),
            )

    -- `zrank` returns the rank of the name in the ranking, counted from one, and reports where there
    -- is none. The set is as it was.
    pub zrank-ranking : Returns (zrank v name) λ r.
        IsOrderedSet double r.1
        × (ranking r.1 ≡ ranking v)
        × (r.0 ≡ int_of (rank_of name (ranking v)))
    unfolding zrank
    zrank-ranking =
        let ((node, m), run, (s', _, h)) = lookup-Hit double v name s in from node m run s' h
      where
        from :
            (node : Option HNode) (m : HMap)
            → hm_lookup v.hmap (hash name) (equals_entry v.entries name) ≡ ok (node, m)
            → IsOrderedSet double (record v { hmap = m })
            → Hit double v name node
            → Returns (zrank v name) λ r.
              IsOrderedSet double r.1
              × (ranking r.1 ≡ ranking v)
              × (r.0 ≡ int_of (rank_of name (ranking v)))
        from none m run s' (absent _ k) =
            let (_, rk) = score_of_absent double v.entries name (items v.tree) k in
            ((none, record v { hmap = m }), rw (zrank, run) refl, (s', refl, rw rk refl))
        from (some _) m run s' (present n e k at named others once) =
            let (rank, is_rank, lt, _, rk) = located name n e at named others once in
            (
              (some (pos rank), record v { hmap = m }),
              rw (zrank, run, is_rank, to_int-pos rank lt) refl,
              (s', refl, rw rk refl),
            )

  zcard-ranking : zcard v ≡ pos (length (ranking v))
  unfolding zcard
  zcard-ranking =
      rw
        (
          hm_size-tally v.hmap s.table.valid,
          to_int-pos (tally v.hmap (λ _. true)) s.table.valid.small,
        )
        (ap pos (
          omega (
            arith,
            length-entries_at double v.entries (items v.tree) s.numbered,
            length-items v.tree,
            s.sized,
          )))

  zrange-ranking :
      (lo hi : ℤ)
      → length (ranking v) + 1 < 2 ^ 31
      → zrange v lo hi ≡ ok (pairs (slice lo hi (ranking v)))
  unfolding zrange
  zrange-ranking lo hi room =
      let count = length-entries_at double v.entries (items v.tree) s.numbered in
      let small : size v.tree + 1 < 2 ^ 31 = omega (arith, count, length-items v.tree) in
      ap (λ c. c >>= read_entries v.entries) (avl_range_by_rank-ranked lo hi v.tree small)
      ∙ (read_entries-pairs double v.entries (ranked lo hi 1 (items v.tree)) (
            All-ranked double v.entries (Numbered double v.entries) lo hi 1 (items v.tree)
              s.numbered)
          ∙ rw (stretch-ranked double v.entries lo hi 1 (items v.tree) s.numbered) refl)
      ∙ ap (λ es. ok (pairs es)) (ranked-slice lo hi (ranking v))

  zall-ranking : zall v ≡ ok (pairs (ranking v))
  unfolding zall avl_inorder
  zall-ranking =
      rw (inorder-items v.tree []) (read_entries-pairs double v.entries (items v.tree) s.numbered)

  -- `zcard` is the number of entries in the ranking; `zrange`, in a set of fewer than 2 ^ 31 - 1 of
  -- them, returns those whose rank, counted from 1, lies between the two bounds, in order, which is the
  -- ranking without the entries before the lower bound, up to the upper one; `zall` returns all.
  pub listings_ranking :
      (zcard v ≡ pos (length (ranking v)))
      × ((lo hi : ℤ)
          → length (ranking v) + 1 < 2 ^ 31
          → zrange v lo hi ≡ ok (pairs (slice lo hi (ranking v))))
      × (zall v ≡ ok (pairs (ranking v)))
  listings_ranking = (zcard-ranking, zrange-ranking, zall-ranking)
