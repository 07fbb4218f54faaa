-- ===== src/Store/Strings.antt =====
-- server/src/data_structures/string.cpp: `get`, `set` and `del` of a `StringEntry`.
pub mod Kinds
pub mod Lookup
pub mod Delete
pub mod Assign
pub mod Reached
use redis_like.HashTable.Map.{hm_lookup, hm_insert, hm_delete}
use redis_like.HashTable.Tab.{HNode}
use redis_like.Store.Objects.{Bytes, entry_str, zset_node, Database, hash, same_bytes, write, load}
use redis_like.Prelude.{ℕ, ◌+◌, Bool, true, false, none, some, [], Run, ok, undefined, ◌>>=◌}

module _ {Score : Type 0} where
  -- `equals(n, key)`: the object around `n` is taken for an `Entry_str`, which is undefined where it
  -- is a `ZsetNode`, of another layout.
  unfoldable pub equals : Database Score → Bytes → HNode → Run Bool
  equals db key n = do
    object ← load db.objects n.object
    elim object [ entry_str k _ ↦ ok (same_bytes k key) | zset_node _ _ ↦ undefined ]

  -- The value of the `Entry_str` at an address.
  unfoldable pub value_at : Database Score → ℕ → Run Bytes
  value_at db a = do
    object ← load db.objects a
    elim object [ entry_str _ v ↦ ok v | zset_node _ _ ↦ undefined ]

  -- A key that is not found reads as the empty string.
  unfoldable pub get : Database Score → Bytes → Run (Bytes × Database Score)
  unfolding equals value_at
  get db key = do
    (node, m) ← hm_lookup db.hmap (hash key) (equals db key)
    let db' = record db { hmap = m }
    elim node [ none ↦ ok ([], db') | some n ↦ do v ← value_at db n.object; ok (v, db') ]

  -- `value.swap(entry.value)` of a found entry.
  unfoldable pub set_value : Database Score → ℕ → Bytes → Run (Database Score)
  set_value db a value = do
    object ← load db.objects a
    elim object [
      | entry_str k _ ↦ ok (record db { objects = write db.objects a (some (entry_str k value)) })
      | zset_node _ _ ↦ undefined
    ]

  -- A new entry at a new address. The `catch` of `set` serves a failed allocation, which is not
  -- modelled, and the exception of `HTab`, which no valid map raises.
  unfoldable pub set : Database Score → Bytes → Bytes → Run (Bool × Database Score)
  unfolding equals set_value
  set db key value = do
    (node, m) ← hm_lookup db.hmap (hash key) (equals db key)
    let db' = record db { hmap = m }
    elim node [
      | some n ↦ do db'' ← set_value db' n.object value; ok (true, db'')
      | none ↦ do
        m' ← hm_insert m (some (record { hcode = hash key; object = db.next }))
        ok (
          true,
          record {
            hmap = m';
            objects = write db.objects db.next (some (entry_str key value));
            next = db.next + 1;
          },
        )
    ]

  unfoldable pub del : Database Score → Bytes → Run (Bool × Database Score)
  unfolding equals
  del db key = do
    (node, m) ← hm_delete db.hmap (hash key) (equals db key)
    let db' = record db { hmap = m }
    elim node [
      | none ↦ ok (false, db')
      | some n ↦ ok (true, record db' { objects = write db.objects n.object none })
    ]
