-- ===== src/Store/Strings/Lookup.antt =====
-- `get` of server/src/data_structures/string.cpp reads the value that the database holds.
use redis_like.HashTable.Map.{HMap, hm_lookup}
use redis_like.HashTable.Map.Find.{Answer, nothing, found, hm_lookup-Answer}
use redis_like.HashTable.Map.Valid.{tally, Contains}
use redis_like.HashTable.Tab.{HNode}
use redis_like.HashTable.Tab.Ready.{Answers}
use redis_like.HashTable.Tab.Slots.{matches}
use redis_like.Store.Contents.{IsLive, Holds, keyed, eq_of_same_bytes}
use redis_like.Store.Contents.Find.{keyed-matches}
use redis_like.Store.Strings.Kinds.{IsStringKey}
use redis_like.Store.Contents.Same.{Same, hmap-Same}
use redis_like.Store.Objects.{Bytes, entry_str, object_keyed, Database, hash, same_bytes, load}
use redis_like.Store.Strings.{equals, value_at, get}
use redis_like.Prelude.{true, Option, none, some, [], ◌≡◌, refl, arith, ok, Returns}

module _ {Score : Type 0} (db : Database Score) (key : Bytes) where
  -- What `get` reads: the value, or the empty string where the key is missing.
  pub data Got : Bytes → Type 0 where
    stored : (v : Bytes) → Holds db key (entry_str key v) → Got v
    unset : tally db.hmap (keyed db key) ≡ 0 → Got []

  module _ (l : IsLive db) (s : IsStringKey db key) where
    -- The comparison is defined on the nodes with the hash, and compares the keys.
    pub equals-Answers :
        (n : HNode) → Contains db.hmap n → Answers (hash key) (equals db key) (keyed db key) n
    unfolding equals
    equals-Answers n k e = let (k', v, at) = s n k e in rw (equals, load, at) refl

    -- A node that matches is a string with this key.
    pub matched :
        (n : HNode)
        → Contains db.hmap n
        → matches (hash key) (keyed db key) n ≡ true
        → (v : Bytes) × (db.objects n.object ≡ some (entry_str key v))
    matched n k hit =
        let same_hash : n.hcode ≡ hash key = ground arith in
        let same_key : keyed db key n ≡ true = ground arith in
        let (k', v, e) = s n k same_hash in
        let named : same_bytes k' key ≡ true = (rw e at same_key) in
        (v, rw (e, eq_of_same_bytes k' key named) refl)

    -- In a well-formed database where all nodes under the hash of the key are strings (a sorted set
    -- there, also one of another key, makes the call undefined):
    -- `get` returns, whatever step of the rehashing it takes: the database holds what it held, and
    -- the result is the value of the key, or the empty string where there is none.
    pub get-Got : Returns (get db key) λ r. Same db r.1 × Got r.0
    unfolding get
    get-Got =
        let ((node, m), run, (valid, totals, a)) =
          hm_lookup-Answer (hash key) (equals db key) (keyed db key) db.hmap l.valid
            equals-Answers in
        from node m run (hmap-Same db m valid totals l) a
      where
        from :
            (node : Option HNode) (m : HMap)
            → hm_lookup db.hmap (hash key) (equals db key) ≡ ok (node, m)
            → Same db (record db { hmap = m })
            → Answer db.hmap (hash key) (keyed db key) node
            → Returns (get db key) λ r. Same db r.1 × Got r.0
        from none m run same (nothing z) = (
          ([], record db { hmap = m }),
          rw (get, run) refl,
          (same, unset (keyed-matches db key l z)),
        )
        from (some _) m run same (found n k hit) =
            let (v, at) = matched n k hit in
            let holds : Holds db key (entry_str key v) = record {
              hook = n;
              inside = k;
              stands = at;
              named = refl;
            } in
            (
              (v, record db { hmap = m }),
              rw (get, run) (rw (value_at, load, at) refl),
              (same, stored v holds),
            )
