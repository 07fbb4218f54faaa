-- ===== src/Store/Strings/Reached.antt =====
-- The databases that `get`, `set` and `del` of server/src/data_structures/string.cpp lead to from the
-- one that the server starts with.
use redis_like.HashTable.Map.{HMap}
use redis_like.HashTable.Map.Valid.{tally, IsValid, new_map-IsValid}
use redis_like.HashTable.Tab.{HNode}
use redis_like.HashTable.Tab.Slots.{is}
use redis_like.Store.Contents.{IsLive}
use redis_like.Store.Contents.Same.{Same}
use redis_like.Store.Objects.{Bytes, entry_str, object_keyed, Database, new_database}
use redis_like.Store.Strings.{get, set, del}
use redis_like.Store.Strings.Lookup.{Got, get-Got}
use redis_like.Store.Strings.Delete.{Deleted, absent, deleted, del-Deleted}
use redis_like.Store.Contents.Write.{With}
use redis_like.Store.Strings.Kinds.{
  IsStringKey, IsStringKey-Same, IsStringKey-Without, IsStringKey-With,
}
use redis_like.Store.Strings.Assign.{set-With}
use redis_like.Prelude.{
  ◌+◌, ◌^◌, ◌<◌, Bool, true, false, none, ◌≡◌, refl, arith, ok, Returns, returned,
}

module _ {Score : Type 0} where
  -- A step is a call that returns; an insertion needs room in the counters of the map.
  pub data Reached : Database Score → Type 0 where
    start : (db : Database Score) → new_database ≡ ok db → Reached db
    after_get :
        (db : Database Score) (key v : Bytes) (db' : Database Score)
        → Reached db
        → get db key ≡ ok (v, db')
        → Reached db'
    after_set :
        (db : Database Score) (key value : Bytes) (done : Bool) (db' : Database Score)
        → Reached db
        → tally db.hmap (λ _. true) + 1 < 2 ^ 31
        → set db key value ≡ ok (done, db')
        → Reached db'
    after_del :
        (db : Database Score) (key : Bytes) (done : Bool) (db' : Database Score)
        → Reached db
        → del db key ≡ ok (done, db')
        → Reached db'

  abbrev HoldsStrings : Database Score → Type 0
  HoldsStrings db = IsLive db × ((key : Bytes) → IsStringKey db key)

  -- An empty map holds nothing that could be dead or of another type.
  empty-HoldsStrings :
      (m : HMap)
      → IsValid m
      → ((p : HNode → Bool) → tally m p ≡ 0)
      → HoldsStrings (record { hmap = m; objects = λ _. none; next = 0 })
  empty-HoldsStrings m v z = (
    record {
      valid = v;
      live = λ n k. absurd (omega (arith, z (is n)));
      below = λ n k. absurd (omega (arith, z (is n)));
      once = λ key. omega (arith, z (λ _. false));
    },
    λ key n k e. absurd (omega (arith, z (is n))),
  )

  started : Returns new_database HoldsStrings
  unfolding new_database
  started =
      let (m, run, (v, z)) = new_map-IsValid in
      (record { hmap = m; objects = λ _. none; next = 0 }, rw run refl, empty-HoldsStrings m v z)

  Deleted-strings :
      (db : Database Score) (key : Bytes) (done : Bool) (db' : Database Score)
      → HoldsStrings db
      → Deleted db key db' done
      → HoldsStrings db'
  Deleted-strings db key false db' (l, s) (absent z same) =
      (same.live, λ k. IsStringKey-Same db db' k l same (s k))
  Deleted-strings db key true db' (l, s) (deleted v x w) =
      (w.live, λ k. IsStringKey-Without db key db' k l w (s k))

  -- Every database reached from the start by calls of `get`, `set` and `del` that return holds
  -- strings only, each under the hash of its key and in a live object, and every key once at most.
  -- So all conditions of the theorems on these calls hold there but the room of an insertion.
  pub Reached-IsLive :
      (db : Database Score) → Reached db → IsLive db × ((key : Bytes) → IsStringKey db key)
  Reached-IsLive db (start _ e) = returned HoldsStrings new_database db started e
  Reached-IsLive db' (after_get db key v _ r e) =
      let (l, s) = Reached-IsLive db r in
      let (same, _) =
        returned (λ r. Same db r.1 × Got db key r.0) (get db key) (v, db')
          (get-Got db key l (s key)) e in
      (same.live, λ k. IsStringKey-Same db db' k l same (s k))
  Reached-IsLive db' (after_set db key value done _ r room e) =
      let (l, s) = Reached-IsLive db r in
      let (_, w) =
        returned (λ r. (r.0 ≡ true) × With db key (entry_str key value) r.1) (set db key value)
          (done, db') (set-With db key l (s key) value room) e in
      (w.live, λ k. IsStringKey-With db key value db' k l w (s k))
  Reached-IsLive db' (after_del db key done _ r e) =
      let (l, s) = Reached-IsLive db r in
      Deleted-strings db key done db' (l, s)
        (returned (λ r. Deleted db key r.1 r.0) (del db key) (done, db')
          (del-Deleted db key l (s key)) e)
