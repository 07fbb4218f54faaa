-- ===== src/Store/Strings/Delete.antt =====
-- `del` of server/src/data_structures/string.cpp takes one key out of the database.
use redis_like.HashTable.Map.{HMap, hm_delete}
use redis_like.HashTable.Map.Find.{Removal, kept, removed, hm_delete-Removal}
use redis_like.HashTable.Map.Valid.{tally, Contains, IsValid}
use redis_like.HashTable.Tab.{HNode}
use redis_like.HashTable.Tab.Slots.{is, is_refl}
use redis_like.Store.Contents.{IsLive, Holds, keyed}
use redis_like.Store.Contents.Find.{keyed-matches}
use redis_like.Store.Strings.Kinds.{IsStringKey}
use redis_like.Store.Contents.Free.{Without, freed-Without}
use redis_like.Store.Contents.Same.{Same, hmap-Same}
use redis_like.Store.Objects.{Bytes, entry_str, object_keyed, Database, hash, write}
use redis_like.Store.Strings.{equals, del}
use redis_like.Store.Strings.Lookup.{equals-Answers, matched}
use redis_like.Prelude.{Bool, true, false, Option, none, some, ◌≡◌, refl, arith, ok, Returns}

module _ {Score : Type 0} where
  -- What `del` may answer.
  pub data Deleted (db : Database Score) (key : Bytes) (db' : Database Score) : Bool → Type 0 where
    absent : tally db.hmap (keyed db key) ≡ 0 → Same db db' → Deleted db key db' false
    deleted :
        (v : Bytes) → Holds db key (entry_str key v) → Without db key db' → Deleted db key db' true

  module _ (db : Database Score) (key : Bytes) (l : IsLive db) (s : IsStringKey db key) where
    -- In a well-formed database where all nodes under the hash of the key are strings (a sorted set
    -- there, also one of another key, makes the call undefined):
    -- `del` returns, whatever step of the rehashing it takes: `true` where the database held the
    -- key, which it has no more, with all else as it was, and `false` where it held no such key.
    pub del-Deleted : Returns (del db key) λ r. Deleted db key r.1 r.0
    unfolding del
    del-Deleted =
        let ((node, m), run, (valid, k)) =
          hm_delete-Removal (hash key) (equals db key) (keyed db key) db.hmap l.valid
            (equals-Answers db key l s) in
        from node m run valid k
      where
        from :
            (node : Option HNode) (m : HMap)
            → hm_delete db.hmap (hash key) (equals db key) ≡ ok (node, m)
            → IsValid m
            → Removal db.hmap m (hash key) (keyed db key) node
            → Returns (del db key) λ r. Deleted db key r.1 r.0
        from none m run valid (kept z totals) = (
          (false, record db { hmap = m }),
          rw (del, run) refl,
          absent (keyed-matches db key l z) (hmap-Same db m valid totals l),
        )
        from (some _) m run valid (removed n hit totals) =
            let inside : Contains db.hmap n = ground (arith, totals (is n), is_refl n) in
            let (v, at) = matched db key l s n inside hit in
            let holds : Holds db key (entry_str key v) = record {
              hook = n;
              inside = inside;
              stands = at;
              named = refl;
            } in
            (
              (true, record db { hmap = m; objects = write db.objects n.object none }),
              rw (del, run) refl,
              deleted v holds (freed-Without db key l n m valid (entry_str key v) at refl totals),
            )
