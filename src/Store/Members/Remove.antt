-- ===== src/Store/Members/Remove.antt =====
-- `zrem` of server/src/data_structures/zset.cpp takes the entry of a name out, and what `zscore` reads
-- after `zadd` and after `zrem`.
use redis_like.Avl.Delete.{avl_delete_-items}
use redis_like.Avl.Shape.{items, size, length-items}
use redis_like.Avl.Sorted.{occurs, remove, All-remove, remove-IsSorted}
use redis_like.HashTable.Map.{HMap, hm_lookup}
use redis_like.HashTable.Map.Find.{Removal, kept, removed, hm_delete-Removal}
use redis_like.HashTable.Map.Valid.{tally, Contains}
use redis_like.HashTable.Tab.{HNode}
use redis_like.HashTable.Tab.Slots.{is, is_refl}
use redis_like.Store.Contents.{Holds, Holds-hook, keyed, same_bytes_refl, tally-Holds}
use redis_like.Store.Contents.Find.{match_of, keyed-matches}
use redis_like.Store.Contents.Free.{freed-Without}
use redis_like.Store.Members.{less, less_entry, equals_entry, zadd, zrem, zscore}
use redis_like.Store.Members.Add.{zadd-ranking}
use redis_like.Store.Members.Entries.{
  Numbered, occurs-remove, length-remove, without-remove, without_absent, entries_at-write,
  IsSorted-write, Numbered-write,
}
use redis_like.Store.Members.Order.{IsOrdered}
use redis_like.Store.Members.Ordered.{
  IsOrderedSet, Hit, absent, present, lookup-Hit, equals_entry-Answers,
}
use redis_like.Store.Members.Ranking.{ranking, place, without, score_of}
use redis_like.Store.Members.Reads.{zscore-ranking}
use redis_like.Store.Objects.{
  Bytes, Double, Entry, entry_keyed, Value, table_of, hash, write, same_bytes,
}
use redis_like.Prelude.{
  ◌+◌, ◌^◌, ◌<◌, ◌==◌, Bool, true, Option, none, some, List, [], ◌∷◌, ◌≡◌, refl, sym, ap, ◌∙◌, inl,
  inr, arith, length, one_if, ok, ◌>>=◌, Returns, Bool-cases,
}

module _ {Score : Type 0} (double : Double Score) (v : Value Score) (s : IsOrderedSet double v)
    (name : Bytes) where
  abbrev pub Removed : Value Score → Type 0
  Removed v' = IsOrderedSet double v' × (ranking v' ≡ without name (ranking v))

  -- The second search finds the node of the first.
  same_node :
      (m m' : HMap) (n : HNode) (e : Entry Score) (found : Option HNode)
      → IsOrderedSet double (record v { hmap = m })
      → Contains m n
      → v.entries n.object ≡ some e
      → e.name ≡ name
      → Removal m m' (hash name) (keyed (table_of v) name) found
      → (found ≡ some n) × ((p : HNode → Bool) → tally m p ≡ one_if (p n) + tally m' p)
  same_node m m' n e none s' k at named (kept z _) =
      let x : Holds (table_of (record v { hmap = m })) name e = record {
        hook = n;
        inside = k;
        stands = at;
        named = named;
      } in
      absurd (
        omega (
          arith,
          keyed-matches (table_of (record v { hmap = m })) name s'.table z,
          tally-Holds (table_of (record v { hmap = m })) name e x,
        ))
  same_node m m' n e (some _) s' k at named (removed o hit totals) =
      let db = table_of (record v { hmap = m }) in
      let x : Holds db name e = record { hook = n; inside = k; stands = at; named = named } in
      let inside : Contains m o = ground (arith, totals (is o), is_refl o) in
      let (e', at', named') = match_of db name s'.table o inside hit in
      let y : Holds db name e' = record {
        hook = o;
        inside = inside;
        stands = at';
        named = named';
      } in
      let same = Holds-hook db name e e' x y s'.table in
      (ap some (sym same), λ p. totals p ∙ ap (λ w. one_if (p w) + tally m' p) (sym same))

  -- `zrem` returns `true`: the set is in order, and its ranking is the old one without the entry of
  -- the name, or the old one if the name has none.
  pub zrem-ranking : Returns (zrem v name) λ r. (r.0 ≡ true) × Removed r.1
  unfolding zrem
  zrem-ranking =
      let ((node, m), run, (s', totals, h)) = lookup-Hit double v name s in
      from node m run s' totals h
    where
      from :
          (node : Option HNode) (m : HMap)
          → hm_lookup v.hmap (hash name) (equals_entry v.entries name) ≡ ok (node, m)
          → IsOrderedSet double (record v { hmap = m })
          → ((p : HNode → Bool) → tally m p ≡ tally v.hmap p)
          → Hit double v name node
          → Returns (zrem v name) λ r. (r.0 ≡ true) × Removed r.1
      from none m run s' totals (absent _ k) = (
        (true, record v { hmap = m }),
        rw (zrem, run) refl,
        (refl, (s', sym (without_absent double v.entries name (items v.tree) k))),
      )
      from (some _) m run s' totals (present n e k at named others once) =
          let x = n.object in
          let all = items v.tree in
          let small : size v.tree < 2 ^ 31 = omega (arith, s.sized, s.table.valid.small) in
          let inside : Contains m n = omega (arith, totals (is n), k) in
          let ((found, m'), delete, (valid, removal)) =
            hm_delete-Removal (hash name) (equals_entry v.entries name) (keyed (table_of v) name) m
              s'.table.valid (equals_entry-Answers double (record v { hmap = m }) name s') in
          let (_, less_one) = same_node m m' n e found s' inside at named removal in
          let (t, del, (kt, it)) = avl_delete_-items x v.tree s.cached small once in
          let gone : occurs x (remove x all) ≡ 0 = ground (arith, occurs-remove x x all) in
          let w =
            freed-Without (table_of (record v { hmap = m })) name s'.table n m' valid e at named
              less_one in
          (
            (true, record { hmap = m'; tree = t; entries = write v.entries x none; next = v.next }),
            rw (zrem, run) (rw (delete, del) refl),
            (
              refl,
              (
                record {
                  table = w.live;
                  cached = kt;
                  sorted = rw it (
                      IsSorted-write double v.entries x none (remove x all) gone
                        (remove-IsSorted (less double v.entries) x all s.sorted));
                  numbered = rw it (
                      Numbered-write double v.entries x none (remove x all) gone
                        (All-remove (Numbered double v.entries) x all s.numbered));
                  same = λ a. elim (Bool-cases (x == a)) [
                    | inl here ↦
                        let e : a ≡ x = ground arith in
                        let one : occurs a all ≡ 1 = rw e once in
                        let none_left : occurs a (items t) ≡ 0 = rw (it, e) gone in
                        let out : one_if (x == a) ≡ 1 = rw here refl in
                        omega (arith, one, none_left, out, less_one (λ n. n.object == a), s'.same a)
                    | inr apart ↦
                        let same : occurs a (items t) ≡ occurs a all =
                          rw it (occurs-remove a x all ∙ rw apart refl) in
                        let out : one_if (x == a) ≡ 0 = rw apart refl in
                        omega (arith, same, out, less_one (λ n. n.object == a), s'.same a)
                  ];
                  sized = omega (
                    arith,
                    length-items t,
                    ap length it,
                    length-remove x all,
                    once,
                    length-items v.tree,
                    s'.sized,
                    less_one (λ _. true),
                  );
                },
                rw it (
                    entries_at-write double v.entries x none (remove x all) gone
                    ∙ sym (without-remove double v.entries name x all others)),
              ),
            ),
          )

module _ {Score : Type 0} (name : Bytes) where
  score_of-without : (es : List (Entry Score)) → score_of name (without name es) ≡ none
  score_of-without [] = refl
  score_of-without (e ∷ es) = elim (Bool-cases (same_bytes e.name name)) [
    | inl hit ↦ rw hit (score_of-without es)
    | inr miss ↦ rw miss (rw miss (score_of-without es))
  ]

  score_of-place :
      (double : Double Score) (e : Entry Score) (es : List (Entry Score))
      → e.name ≡ name
      → score_of name es ≡ none
      → score_of name (place double e es) ≡ some e.score
  score_of-place double e [] named z = rw (named, same_bytes_refl name) refl
  score_of-place double e (x ∷ es) named z =
      let hit : same_bytes e.name name ≡ true = rw named (same_bytes_refl name) in
      elim (Bool-cases (less_entry double e x)) [
        | inl lt ↦ rw (lt, hit) refl
        | inr ge ↦ elim (Bool-cases (same_bytes x.name name)) [
          | inl found ↦ (let no : some x.score ≡ none = (rw found at z) in absurd cc)
          | inr miss ↦ rw (ge, miss) (score_of-place double e es named (rw miss at z))
        ]
      ]

module _ {Score : Type 0} (double : Double Score) (v : Value Score) (s : IsOrderedSet double v)
    (name : Bytes) where
  -- `zscore` after `zadd` reads the score that was given, under the conditions of `zadd`.
  pub zscore-zadd :
      IsOrdered double
      → (score : Score) → double.eq score score ≡ true
      → tally v.hmap (λ _. true) + 1 < 2 ^ 31
      → Returns (zadd double v score name >>= λ r. zscore r.1 name) λ r. r.0 ≡ some score
  zscore-zadd laws score number room =
      let ((done, v'), run, (_, (s', ranks))) =
        zadd-ranking double laws v s score name number room in
      let (r, run', (_, _, e)) = zscore-ranking double v' s' name in
      let new : Entry Score = record { score = score; name = name } in
      (
        r,
        rw run run',
        e
            ∙ ap (score_of name) ranks
            ∙ score_of-place name double new (without name (ranking v)) refl
                (score_of-without name (ranking v)),
      )

  -- `zscore` after `zrem` reports that the name has no score.
  pub zscore-zrem : Returns (zrem v name >>= λ r. zscore r.1 name) λ r. r.0 ≡ none
  zscore-zrem =
      let ((done, v'), run, (_, (s', ranks))) = zrem-ranking double v s name in
      let (r, run', (_, _, e)) = zscore-ranking double v' s' name in
      (r, rw run run', e ∙ ap (score_of name) ranks ∙ score_of-without name (ranking v))
