-- ===== src/Store/Strings/Assign.antt =====
-- `set` of server/src/data_structures/string.cpp, and what `get` reads after it and after `del`.
use redis_like.HashTable.Map.{HMap, hm_lookup}
use redis_like.HashTable.Map.Find.{Answer, nothing, found, hm_lookup-Answer}
use redis_like.HashTable.Map.Insert.{hm_insert-tally}
use redis_like.HashTable.Map.Valid.{tally, Contains}
use redis_like.HashTable.Tab.{HNode}
use redis_like.Store.Contents.{IsLive, Holds, keyed, Holds-unique, tally-Holds}
use redis_like.HashTable.Tab.Slots.{is}
use redis_like.Store.Contents.Same.{Same, hmap-Same}
use redis_like.Store.Objects.{Bytes, Object, entry_str, object_keyed, Database, hash, load}
use redis_like.Store.Strings.{equals, set_value, get, set, del}
use redis_like.Store.Strings.Lookup.{Got, stored, unset, equals-Answers, matched, get-Got}
use redis_like.Store.Strings.Delete.{Deleted, absent, deleted, del-Deleted}
use redis_like.Store.Contents.Find.{keyed-matches}
use redis_like.Store.Contents.Write.{With, updated-With, inserted-With}
use redis_like.Store.Strings.Kinds.{
  IsStringKey, IsStringKey-Same, IsStringKey-Without, IsStringKey-With,
}
use redis_like.Prelude.{
  ◌+◌, ◌^◌, ◌<◌, Bool, true, false, Option, none, some, [], ◌≡◌, refl, ap, ◌∙◌, arith, ok, Returns,
  ◌>>=◌,
}

module _ {Score : Type 0} where
  value_of : Object Score → Bytes
  value_of (entry_str _ v) = v
  value_of _ = []

  -- A step of the rehashing before a change is no change.
  Same-With :
      (db db1 db2 : Database Score) (key value : Bytes)
      → Same db db1
      → With db1 key (entry_str key value) db2
      → With db key (entry_str key value) db2
  Same-With db db1 db2 key value s w = record {
    live = w.live;
    holds = w.holds;
    kept = λ k o ne x. w.kept k o ne (s.kept k o x);
    back = λ k o ne x. s.back k o (w.back k o ne x);
  }

  -- What is read of a key that holds a string is that string.
  Got-Holds :
      (db : Database Score) (key v r : Bytes)
      → IsLive db
      → Holds db key (entry_str key v)
      → Got db key r
      → r ≡ v
  unfolding value_of
  Got-Holds db key v r l x (stored v' y) =
      ap value_of (Holds-unique db key (entry_str key v') (entry_str key v) l y x)
  Got-Holds db key v r l x (unset z) =
      absurd (omega (arith, z, tally-Holds db key (entry_str key v) x))

  Got-missing :
      (db : Database Score) (key r : Bytes)
      → tally db.hmap (keyed db key) ≡ 0
      → Got db key r
      → r ≡ []
  Got-missing db key r z (unset _) = refl
  Got-missing db key r z (stored v x) =
      absurd (omega (arith, z, tally-Holds db key (entry_str key v) x))

  -- After a deletion the key is missing, whatever the answer was.
  after_del :
      (db : Database Score) (key : Bytes) (db' : Database Score) (done : Bool)
      → IsLive db
      → IsStringKey db key
      → Deleted db key db' done
      → IsLive db' × IsStringKey db' key × (tally db'.hmap (keyed db' key) ≡ 0)
  after_del db key db' false l s (absent z same) =
      (same.live, IsStringKey-Same db db' key l same s, same.missing key ∙ z)
  after_del db key db' true l s (deleted v x w) =
      (w.live, IsStringKey-Without db key db' key l w s, w.gone)

  module _ (db : Database Score) (key : Bytes) (l : IsLive db) (s : IsStringKey db key) where
    module _ (value : Bytes) (room : tally db.hmap (λ _. true) + 1 < 2 ^ 31) where
      -- In a well-formed database where all nodes under the hash of the key are strings (a sorted set
      -- there, also one of another key, makes the call undefined), with room in the counters: `set`
      -- returns `true`, the database holds the value under the key, and under every other key what it
      -- held.
      pub set-With :
          Returns (set db key value) λ r. (r.0 ≡ true) × With db key (entry_str key value) r.1
      unfolding set
      set-With =
          let ((node, m), run, (valid, totals, a)) =
            hm_lookup-Answer (hash key) (equals db key) (keyed db key) db.hmap l.valid
              (equals-Answers db key l s) in
          from node m run totals (hmap-Same db m valid totals l) a
        where
          from :
              (node : Option HNode) (m : HMap)
              → hm_lookup db.hmap (hash key) (equals db key) ≡ ok (node, m)
              → ((p : HNode → Bool) → tally m p ≡ tally db.hmap p)
              → Same db (record db { hmap = m })
              → Answer db.hmap (hash key) (keyed db key) node
              → Returns (set db key value) λ r. (r.0 ≡ true) × With db key (entry_str key value) r.1
          from none m run totals same (nothing z) =
              let node : HNode = record { hcode = hash key; object = db.next } in
              let db1 = record db { hmap = m } in
              let (m', insert, (valid, more)) =
                hm_insert-tally m node same.live.valid (omega (arith, totals (λ _. true))) in
              let missing = same.missing key ∙ keyed-matches db key l z in
              let w =
                inserted-With db1 key (entry_str key value) refl same.live missing m' valid more in
              (
                (true, _),
                rw (set, run) (rw insert refl),
                (refl, Same-With db db1 _ key value same w),
              )
          from (some _) m run totals same (found n k hit) =
              let (v, at) = matched db key l s n k hit in
              let db1 = record db { hmap = m } in
              let inside : Contains m n = omega (arith, totals (is n)) in
              let w =
                updated-With db1 key (entry_str key value) (entry_str key v) refl refl same.live n
                  inside at in
              (
                (true, _),
                rw (set, run) (rw (set_value, load, at) refl),
                (refl, Same-With db db1 _ key value same w),
              )

      -- `get` after `set` of the same key, under the conditions of `set`, reads the value.
      pub get-set : Returns (set db key value >>= λ r. get r.1 key) λ r. r.0 ≡ value
      get-set =
          let ((done, db1), run, (_, w)) = set-With in
          let (r, run', (_, g)) =
            get-Got db1 key w.live (IsStringKey-With db key value db1 key l w s) in
          (r, rw run run', Got-Holds db1 key value r.0 w.live w.holds g)

    -- `get` after `del` of the same key, under the conditions of `del`, reads the empty string.
    pub get-del : Returns (del db key >>= λ r. get r.1 key) λ r. r.0 ≡ []
    get-del =
        let ((done, db1), run, d) = del-Deleted db key l s in
        let (live, strings, gone) = after_del db key db1 done l s d in
        let (r, run', (_, g)) = get-Got db1 key live strings in
        (r, rw run run', Got-missing db1 key r.0 gone g)
