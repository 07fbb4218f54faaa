-- ===== src/Store/Members.antt =====
-- server/src/data_structures/zset.cpp: `ZsetEntry`, the operations on the entries of one sorted set,
-- which its hash table finds by name and its tree holds by score.
pub mod Order
pub mod Ranking
pub mod Entries
pub mod Put
pub mod Ordered
pub mod Reads
pub mod Fresh
pub mod Add
pub mod Remove
use redis_like.Avl.{avl_insert, avl_delete_, avl_rank, avl_range_by_rank, avl_inorder}
use redis_like.HashTable.Map.{hm_lookup, hm_insert, hm_delete, hm_size}
use redis_like.HashTable.Tab.{HNode}
use redis_like.Store.Objects.{
  Bytes, Double, Memory, Entry, Value, hash, same_bytes, bytes_lt, write, load,
}
use redis_like.Prelude.{
  ℕ, ◌+◌, ◌-◌, ◌^◌, ltb, if◌then◌else◌, Bool, true, false, Option, none, some, List, [], ◌∷◌, Run,
  ok, ◌>>=◌, ℤ, pos, negsuc,
}

-- `(int)` of a `uint32_t`.
unfoldable pub to_int : ℕ → ℤ
to_int n = if ltb n (2 ^ 31) then pos n else negsuc (2 ^ 32 - 1 - n)

module _ {Score : Type 0} where
  -- `equals_entry(n, key)`
  unfoldable pub equals_entry : Memory (Entry Score) → Bytes → HNode → Run Bool
  equals_entry entries name n = do e ← load entries n.object; ok (same_bytes e.name name)

  unfoldable pub less_entry : Double Score → Entry Score → Entry Score → Bool
  less_entry double a b =
      if double.eq a.score b.score then bytes_lt a.name b.name else double.lt a.score b.score

  -- `less` of the entries at two addresses. The addresses of a tree hold entries.
  unfoldable pub less : Double Score → Memory (Entry Score) → ℕ → ℕ → Bool
  unfolding less_entry
  less double entries a b = elim (entries a) [
    | none ↦ false
    | some x ↦ elim (entries b) [ none ↦ false | some y ↦ less_entry double x y ]
  ]

  -- An entry that is there leaves the tree, gets its new score, and goes into the tree again.
  unfoldable pub change_score : Double Score → Value Score → ℕ → Score → Run (Value Score)
  unfolding less
  change_score double v a score = do
    t ← avl_delete_ v.tree a
    e ← load v.entries a
    let entries = write v.entries a (some (record e { score = score }))
    t' ← avl_insert (less double entries) t a
    ok (record v { tree = t'; entries = entries })

  -- A new entry, at a new address, goes into the tree and into the hash table.
  unfoldable pub add_entry : Double Score → Value Score → Score → Bytes → Run (Value Score)
  unfolding less
  add_entry double v score name = do
    let entries = write v.entries v.next (some (record { score = score; name = name }))
    t ← avl_insert (less double entries) v.tree v.next
    m ← hm_insert v.hmap (some (record { hcode = hash name; object = v.next }))
    ok (record { hmap = m; tree = t; entries = entries; next = v.next + 1 })

  -- The `catch` of `zadd` and `zrem` serves a failed allocation, as in `set`.
  unfoldable pub zadd : Double Score → Value Score → Score → Bytes → Run (Bool × Value Score)
  unfolding equals_entry change_score add_entry
  zadd double v score name = do
    (node, m) ← hm_lookup v.hmap (hash name) (equals_entry v.entries name)
    let v' = record v { hmap = m }
    elim node [
      | some n ↦ do v'' ← change_score double v' n.object score; ok (true, v'')
      | none ↦ do v'' ← add_entry double v' score name; ok (true, v'')
    ]

  -- Both searches of `zrem` take their step of the rehashing.
  unfoldable pub zrem : Value Score → Bytes → Run (Bool × Value Score)
  unfolding equals_entry
  zrem v name = do
    (node, m) ← hm_lookup v.hmap (hash name) (equals_entry v.entries name)
    elim node [
      | none ↦ ok (true, record v { hmap = m })
      | some n ↦ do
        (_, m') ← hm_delete m (hash name) (equals_entry v.entries name)
        t ← avl_delete_ v.tree n.object
        ok (true, record v { hmap = m'; tree = t; entries = write v.entries n.object none })
    ]

  -- `none` is `isok == false`.
  unfoldable pub zscore : Value Score → Bytes → Run (Option Score × Value Score)
  unfolding equals_entry
  zscore v name = do
    (node, m) ← hm_lookup v.hmap (hash name) (equals_entry v.entries name)
    let v' = record v { hmap = m }
    elim node [
      | none ↦ ok (none, v')
      | some n ↦ do e ← load v.entries n.object; ok (some e.score, v')
    ]

  unfoldable pub zrank : Value Score → Bytes → Run (Option ℤ × Value Score)
  unfolding equals_entry to_int
  zrank v name = do
    (node, m) ← hm_lookup v.hmap (hash name) (equals_entry v.entries name)
    let v' = record v { hmap = m }
    elim node [
      | none ↦ ok (none, v')
      | some n ↦ ok (some (to_int (avl_rank v.tree (some n.object))), v')
    ]

  unfoldable pub zcard : Value Score → ℤ
  unfolding to_int
  zcard v = to_int (hm_size v.hmap)

  -- The loop that reads the entries of the nodes.
  unfoldable pub read_entries : Memory (Entry Score) → List ℕ → Run (List (Bytes × Score))
  read_entries entries [] = ok []
  read_entries entries (a ∷ items) = do
    e ← load entries a
    rest ← read_entries entries items
    ok ((e.name, e.score) ∷ rest)

  unfoldable pub zrange : Value Score → ℤ → ℤ → Run (List (Bytes × Score))
  unfolding read_entries
  zrange v min_rank max_rank = do
    results ← avl_range_by_rank v.tree min_rank max_rank
    read_entries v.entries results

  unfoldable pub zall : Value Score → Run (List (Bytes × Score))
  unfolding read_entries
  zall v = read_entries v.entries (avl_inorder v.tree)
