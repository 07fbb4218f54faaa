-- ===== src/Store/Zsets.antt =====
-- server/src/data_structures/zset.cpp: `Zset`, the sorted sets in the hash table of the database. A
-- `Value *` is the address of the `ZsetNode` that owns it.
use redis_like.Avl.{avl_delete_, avl_inorder, avl_clean_up}
use redis_like.HashTable.Map.{hm_lookup, hm_insert, hm_delete, hm_clean_up}
use redis_like.HashTable.Tab.{HNode}
use redis_like.Store.Members.{equals_entry}
use redis_like.Store.Objects.{
  Bytes, entry_str, zset_node, Database, Value, new_value, hash, same_bytes, write, load,
}
use redis_like.Prelude.{
  ℕ, ◌+◌, Bool, true, Option, none, some, List, [], ◌∷◌, Run, ok, undefined, ◌>>=◌,
}

module _ {Score : Type 0} where
  -- `equals_(n, key)`: the object around `n` is taken for a `ZsetNode`, which is undefined where it
  -- is an `Entry_str`, of another layout.
  unfoldable pub equals_ : Database Score → Bytes → HNode → Run Bool
  equals_ db key n = do
    object ← load db.objects n.object
    elim object [ entry_str _ _ ↦ undefined | zset_node k _ ↦ ok (same_bytes k key) ]

  -- `*value` of the `ZsetNode` at an address.
  unfoldable pub deref_value : Database Score → ℕ → Run (Value Score)
  deref_value db a = do
    object ← load db.objects a
    elim object [ entry_str _ _ ↦ undefined | zset_node _ v ↦ ok v ]

  -- The state of `*value` after a call.
  unfoldable pub put_value : Database Score → ℕ → Value Score → Run (Database Score)
  put_value db a v = do
    object ← load db.objects a
    elim object [
      | entry_str _ _ ↦ undefined
      | zset_node k _ ↦ ok (record db { objects = write db.objects a (some (zset_node k v)) })
    ]

  unfoldable pub exsit : Database Score → Bytes → Run (Option ℕ × Database Score)
  unfolding equals_
  exsit db key = do
    (node, m) ← hm_lookup db.hmap (hash key) (equals_ db key)
    let db' = record db { hmap = m }
    elim node [ none ↦ ok (none, db') | some n ↦ ok (some n.object, db') ]

  -- `Zset::create`. Its null result, of a failed allocation, is not modelled.
  unfoldable pub create : Database Score → Bytes → Run (ℕ × Database Score)
  unfolding exsit new_value
  create db key = do
    (found, db') ← exsit db key
    elim found [
      | some a ↦ ok (a, db')
      | none ↦ do
        v ← new_value
        m ← hm_insert db'.hmap (some (record { hcode = hash key; object = db'.next }))
        ok (
          db'.next,
          record {
            hmap = m;
            objects = write db'.objects db'.next (some (zset_node key v));
            next = db'.next + 1;
          },
        )
    ]

  -- The loop of `zdel`: each entry leaves the hash table and the tree, and is freed.
  unfoldable pub remove_elements : Value Score → List ℕ → Run (Value Score)
  unfolding equals_entry
  remove_elements v [] = ok v
  remove_elements v (a ∷ items) = do
    e ← load v.entries a
    (_, m) ← hm_delete v.hmap (hash e.name) (equals_entry v.entries e.name)
    t ← avl_delete_ v.tree a
    remove_elements (record v { hmap = m; tree = t; entries = write v.entries a none }) items

  -- The end of `zdel` lets the nodes and the slots go.
  unfoldable pub clean_up_value : Value Score → Value Score
  unfolding avl_clean_up hm_clean_up
  clean_up_value v = record v { tree = avl_clean_up v.tree; hmap = hm_clean_up v.hmap }

  -- The value is cleaned up and freed, with the node that owns it.
  unfoldable pub zdel : Database Score → Bytes → Run (Bool × Database Score)
  unfolding equals_ deref_value remove_elements clean_up_value
  zdel db key = do
    (node, m) ← hm_delete db.hmap (hash key) (equals_ db key)
    let db' = record db { hmap = m }
    elim node [
      | none ↦ ok (true, db')
      | some n ↦ do
        v ← deref_value db' n.object
        v' ← remove_elements v (avl_inorder v.tree)
        _ ← ok (clean_up_value v')
        ok (true, record db' { objects = write db'.objects n.object none })
    ]
