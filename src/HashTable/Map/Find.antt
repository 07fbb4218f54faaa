-- ===== src/HashTable/Map/Find.antt =====
-- `hm_lookup` and `hm_delete`: they return, keep the map valid, and find a matching node whenever
-- the map has one, whichever table holds it.
use redis_like.HashTable.Map.{
  HMap, search_tables, hm_lookup, detach_from_tables, hm_delete, hm_size,
}
use redis_like.HashTable.Map.Insert.{old-new_tab}
use redis_like.HashTable.Map.Rehash.{hm_help_rehashing-Helped, total-none}
use redis_like.HashTable.Map.Valid.{tally, Contains, IsDraining, IsValid}
use redis_like.HashTable.Tab.{HNode, HTab, From, no_table, node_at, h_lookup}
use redis_like.HashTable.Tab.Slots.{is, matches, total, count-le-total, count-get_elem?, is_refl}
use redis_like.HashTable.Tab.Ready.{slots_of, IsReady, Answers}
use redis_like.HashTable.Tab.Laws.{
  slot_at-lt, Found, absent, present, h_lookup-Found, h_detach-Detached,
}
use redis_like.Prelude.{
  ℕ, ◌+◌, ◌≤◌, ◌<◌, Bool, true, Option, none, some, [], ◌≡◌, refl, ◌⊎◌, inl, inr, arith, one_if,
  Run, ok, ◌>>=◌, Returns, get_elem?, get_or, length, ◌∙◌,
}

node_at-present :
    (t : HTab) (pos j : ℕ) (n : HNode)
    → IsReady t
    → pos < length (slots_of t)
    → get_elem? (get_or (slots_of t) pos []) j ≡ some n
    → node_at t (pos, j) ≡ ok n
unfolding node_at
node_at-present t pos j n r lt at = rw (slot_at-lt t pos r lt, ◌>>=◌, at) refl

-- A node of the array is counted.
total-get_elem? :
    (t : HTab) (pos j : ℕ) (n : HNode) (p : HNode → Bool)
    → get_elem? (get_or (slots_of t) pos []) j ≡ some n
    → p n ≡ true
    → 1 ≤ total p (slots_of t)
total-get_elem? t pos j n p at h = omega (
  arith,
  count-get_elem? p (get_or (slots_of t) pos []) j n at h,
  count-le-total p (slots_of t) pos,
)

-- What a lookup by `h` and `same` may answer.
pub data Answer (m : HMap) (h : ℕ) (same : HNode → Bool) : Option HNode → Type 0 where
  nothing : tally m (matches h same) ≡ 0 → Answer m h same none
  found : (n : HNode) → Contains m n → matches h same n ≡ true → Answer m h same (some n)

-- What a deletion leaves.
pub data Removal (m m' : HMap) (h : ℕ) (same : HNode → Bool) : Option HNode → Type 0 where
  kept :
      tally m (matches h same) ≡ 0
      → ((p : HNode → Bool) → tally m' p ≡ tally m p)
      → Removal m m' h same none
  removed :
      (n : HNode)
      → matches h same n ≡ true
      → ((p : HNode → Bool) → tally m p ≡ one_if (p n) + tally m' p)
      → Removal m m' h same (some n)

-- An answer is about the contents only.
Answer-tally :
    (m m' : HMap) (h : ℕ) (same : HNode → Bool) (r : Option HNode)
    → ((p : HNode → Bool) → tally m' p ≡ tally m p)
    → Answer m' h same r
    → Answer m h same r
Answer-tally m m' h same none e (nothing z) = nothing (omega (arith, e (matches h same)))
Answer-tally m m' h same (some _) e (found n k hit) = found n (omega (arith, e (is n))) hit

Removal-tally :
    (m m' m'' : HMap) (h : ℕ) (same : HNode → Bool) (r : Option HNode)
    → ((p : HNode → Bool) → tally m' p ≡ tally m p)
    → Removal m' m'' h same r
    → Removal m m'' h same r
Removal-tally m m' m'' h same none e (kept z k) =
    kept (omega (arith, e (matches h same))) (λ p. k p ∙ e p)
Removal-tally m m' m'' h same (some _) e (removed n hit k) =
    removed n hit (λ p. omega (arith, e p, k p))

-- A slot in range shows that there is an old table.
IsDraining-of_lt :
    (m : HMap) (pos : ℕ)
    → (m.old_tab ≡ no_table) ⊎ IsDraining m
    → pos < length (slots_of m.old_tab)
    → IsDraining m
IsDraining-of_lt m pos (inr d) lt = d
IsDraining-of_lt m pos (inl e) lt = let none_left : pos < 0 = (rw e at lt) in absurd (omega arith)

module _ (h : ℕ) (eq : HNode → Run Bool) (same : HNode → Bool) where
  -- The search of the old table, which may be missing.
  old_lookup :
      (m : HMap)
      → (m.old_tab ≡ no_table) ⊎ IsDraining m
      → ((n : HNode) → Contains m n → Answers h eq same n)
      → Returns (h_lookup m.old_tab h eq) (Found m.old_tab h same)
  unfolding h_lookup
  old_lookup m (inl e) answers = (none, rw e refl, absent (total-none m.old_tab (matches h same) e))
  old_lookup m (inr d) answers =
      h_lookup-Found m.old_tab h same d.old_ready eq (λ n k. answers n (omega arith))

  module _ (m : HMap) (v : IsValid m)
      (answers : (n : HNode) → Contains m n → Answers h eq same n) where
    new_lookup : Returns (h_lookup m.new_tab h eq) (Found m.new_tab h same)
    new_lookup = h_lookup-Found m.new_tab h same v.ready eq (λ n k. answers n (omega arith))

    search_from :
        {from from' : Option From}
        → h_lookup m.new_tab h eq ≡ ok from
        → Found m.new_tab h same from
        → h_lookup m.old_tab h eq ≡ ok from'
        → Found m.old_tab h same from'
        → Returns (search_tables m h eq) λ r. (r.1 ≡ m) × Answer m h same r.0
    unfolding search_tables
    search_from new (present pos j n lt at hit) old _ = (
      (some n, m),
      rw (new, node_at-present m.new_tab pos j n v.ready lt at) refl,
      (refl, found n (omega (arith, total-get_elem? m.new_tab pos j n (is n) at (is_refl n))) hit),
    )
    search_from new (absent z) old (absent z') =
        ((none, m), rw (new, old) refl, (refl, nothing (omega arith)))
    search_from new (absent z) old (present pos j n lt at hit) =
        let d = IsDraining-of_lt m pos v.old lt in
        (
          (some n, m),
          rw (new, old, node_at-present m.old_tab pos j n d.old_ready lt at) refl,
          (
            refl,
            found n (omega (arith, total-get_elem? m.old_tab pos j n (is n) at (is_refl n))) hit,
          ),
        )

    detach_from :
        {from from' : Option From}
        → h_lookup m.new_tab h eq ≡ ok from
        → Found m.new_tab h same from
        → h_lookup m.old_tab h eq ≡ ok from'
        → Found m.old_tab h same from'
        → Returns (detach_from_tables m h eq) λ r. IsValid r.1 × Removal m r.1 h same r.0
    unfolding detach_from_tables
    detach_from new (present pos j n lt at hit) old _ =
        let ((node, t), run, d) =
          h_detach-Detached m.new_tab pos j n v.ready (omega (arith, v.small)) lt at in
        (
          (node, record m { new_tab = t }),
          rw (new, run) refl,
          (
            record {
              ready = d.ready;
              narrow = omega (arith, d.mask, v.narrow);
              small = omega (arith, v.small, d.totals (λ _. true));
              old = old-new_tab m t v.old;
            },
            rw d.node (removed n hit (λ p. omega (arith, d.totals p))),
          ),
        )
    detach_from new (absent z) old (absent z') =
        ((none, m), rw (new, old) refl, (v, kept (omega arith) (λ p. refl)))
    detach_from new (absent z) old (present pos j n lt at hit) =
        let d = IsDraining-of_lt m pos v.old lt in
        let ((node, t), run, k) =
          h_detach-Detached m.old_tab pos j n d.old_ready (omega (arith, v.small)) lt at in
        (
          (node, record m { old_tab = t }),
          rw (new, old, run) refl,
          (
            record {
              ready = v.ready;
              narrow = v.narrow;
              small = omega (arith, v.small, k.totals (λ _. true));
              old = inr record {
                old_ready = k.ready;
                old_narrow = omega (arith, k.mask, d.old_narrow);
                cleared = λ i before. k.empty i (d.cleared i before);
              };
            },
            rw k.node (removed n hit (λ p. omega (arith, k.totals p))),
          ),
        )

    search_tables-Answer : Returns (search_tables m h eq) λ r. (r.1 ≡ m) × Answer m h same r.0
    search_tables-Answer =
        let (f, new, a) = new_lookup in
        let (f', old, b) = old_lookup m v.old answers in search_from new a old b

    detach_from_tables-Removal :
        Returns (detach_from_tables m h eq) λ r. IsValid r.1 × Removal m r.1 h same r.0
    detach_from_tables-Removal =
        let (f, new, a) = new_lookup in
        let (f', old, b) = old_lookup m v.old answers in detach_from new a old b

  module _ (m : HMap) (v : IsValid m)
      (answers : (n : HNode) → Contains m n → Answers h eq same n) where
    -- A lookup on a valid map, where `eq` is defined on the nodes that have the hash code: it
    -- returns, the map is valid with the same contents, and it finds a matching node of the map, or
    -- nothing exactly if there is none.
    pub hm_lookup-Answer :
        Returns
          (hm_lookup m h eq)
          λ r. IsValid r.1 × ((p : HNode → Bool) → tally r.1 p ≡ tally m p) × Answer m h same r.0
    unfolding hm_lookup
    hm_lookup-Answer =
        let (m', help, w) = hm_help_rehashing-Helped m v in
        let ((r, m''), run, (same_map, a)) =
          search_tables-Answer m' w.valid (λ n k. answers n (rw (w.totals (is n)) at k)) in
        (
          (r, m''),
          rw help run,
          (
            rw same_map w.valid,
            (λ p. rw same_map (w.totals p)),
            Answer-tally m m' h same r w.totals a,
          ),
        )

    -- A deletion under the same conditions: it returns, the map is valid, and its contents are the
    -- old ones less one matching node, which is the result, or all of them if none matches.
    pub hm_delete-Removal : Returns (hm_delete m h eq) λ r. IsValid r.1 × Removal m r.1 h same r.0
    unfolding hm_delete
    hm_delete-Removal =
        let (m', help, w) = hm_help_rehashing-Helped m v in
        let ((r, m''), run, (valid, k)) =
          detach_from_tables-Removal m' w.valid (λ n k. answers n (rw (w.totals (is n)) at k)) in
        ((r, m''), rw help run, (valid, Removal-tally m m' m'' h same r w.totals k))

size-total : (t : HTab) → (t ≡ no_table) ⊎ IsReady t → t.size ≡ total (λ _. true) (slots_of t)
size-total t (inl e) = rw e refl
size-total t (inr r) = r.counted

-- The size of a valid map is the number of its nodes.
pub hm_size-tally : (m : HMap) → IsValid m → hm_size m ≡ tally m (λ _. true)
unfolding hm_size
hm_size-tally m v = omega (arith, v.ready.counted, size-total m.old_tab (either v.old), v.small)
  where
    either : (m.old_tab ≡ no_table) ⊎ IsDraining m → (m.old_tab ≡ no_table) ⊎ IsReady m.old_tab
    either (inl e) = inl e
    either (inr d) = inr d.old_ready
