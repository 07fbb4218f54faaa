-- ===== src/Dispatch/Requests.antt =====
-- The requests that server/src/command/command_dispatcher.cpp answers from the strings of the
-- database.
use redis_like.Dispatch.Handlers.{handle_get, handle_set, handle_del}
use redis_like.Dispatch.Execute.{
  dispatch, regiser_command, find_command, validate_args, register_commands, execute_command,
}
use redis_like.HashTable.Map.Valid.{tally}
use redis_like.Protocol.Response.{simple_string, integer, bulk_string}
use redis_like.Store.Contents.{IsLive}
use redis_like.Store.Contents.Write.{With}
use redis_like.Store.Strings.Kinds.{IsStringKey}
use redis_like.Store.Contents.Same.{Same}
use redis_like.Store.Objects.{Bytes, entry_str, object_keyed, Double, Database, same_bytes}
use redis_like.Store.Strings.Assign.{set-With}
use redis_like.Store.Strings.Delete.{Deleted, del-Deleted}
use redis_like.Store.Strings.Lookup.{Got, get-Got}
use redis_like.Prelude.{
  ◌+◌, ◌^◌, ◌<◌, if◌then◌else◌, Bool, true, [], ◌∷◌, ◌≡◌, refl, Returns, pos, negsuc, bytes,
}

module _ {Score : Type 0} where
  module _ (double : Double Score) (db : Database Score) (key : Bytes) (l : IsLive db)
      (s : IsStringKey db key) where
    -- Under the conditions of `get`: `GET key` answers the value of the key, or the empty string.
    pub get_request :
        Returns
          (execute_command (register_commands double) (bytes "GET" ∷ key ∷ []) db)
          λ r. Same db r.1 × (v : Bytes) × Got db key v × (r.0 ≡ bulk_string v)
    unfolding execute_command dispatch register_commands find_command regiser_command validate_args
        handle_get bytes same_bytes
    get_request =
        let ((v, db'), run, (same, g)) = get-Got db key l s in
        ((bulk_string v, db'), rw run refl, (same, v, g, refl))

    -- Under the conditions of `set`: `SET key value` answers `OK`, and the database holds the value
    -- under the key.
    pub set_request :
        (value : Bytes)
        → tally db.hmap (λ _. true) + 1 < 2 ^ 31
        → Returns
            (execute_command (register_commands double) (bytes "SET" ∷ key ∷ value ∷ []) db)
            λ r. With db key (entry_str key value) r.1 × (r.0 ≡ simple_string (bytes "OK"))
    unfolding execute_command dispatch register_commands find_command regiser_command validate_args
        handle_set bytes same_bytes
    set_request value room =
        let ((done, db'), run, (_, w)) = set-With db key l s value room in
        ((simple_string (bytes "OK"), db'), rw run refl, (w, refl))

    -- Under the conditions of `del`: `DEL key` answers 1 where there was a value to delete, and -1
    -- otherwise.
    pub del_request :
        Returns (execute_command (register_commands double) (bytes "DEL" ∷ key ∷ []) db) λ r.
          (done : Bool) × Deleted db key r.1 done
          × (r.0 ≡ integer (if done then pos 1 else negsuc 0))
    unfolding execute_command dispatch register_commands find_command regiser_command validate_args
        handle_del bytes same_bytes
    del_request =
        let ((done, db'), run, d) = del-Deleted db key l s in
        ((integer (if done then pos 1 else negsuc 0), db'), rw run refl, (done, d, refl))
