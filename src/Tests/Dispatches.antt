-- ===== src/Tests/Dispatches.antt =====
-- Concrete requests for server/src/command/command_dispatcher.cpp.
use redis_like.Dispatch.Execute.{execute_command, register_commands}
use redis_like.Dispatch.Refused.{documented, arity, execute_command_refused}
use redis_like.Dispatch.Requests.{get_request, set_request, del_request}
use redis_like.Protocol.Response.{simple_string, integer, bulk_string}
use redis_like.Store.Contents.Same.{Same}
use redis_like.Store.Objects.{Bytes, entry_str, object_keyed}
use redis_like.Store.Strings.Delete.{Deleted}
use redis_like.Store.Strings.Lookup.{Got}
use redis_like.Store.Contents.Write.{With}
use redis_like.Tests.Sets.{digit}
use redis_like.Tests.Databases.{key_a, db_a, db_a-IsLive, key_a-IsStringKey}
use redis_like.Prelude.{
  none, ok, ◌≢◌, ◌++◌, ℕ, if◌then◌else◌, Bool, some, [], ◌∷◌, ◌≡◌, length, arith, Returns, bytes,
  pos, negsuc,
}

-- `GET` without a key.
execute_command_refused_example :
    (arity documented (bytes "GET") ≡ none
      → execute_command (register_commands digit) (bytes "GET" ∷ []) db_a
        ≡ ok (simple_string (bytes "未知命令 '" ++ bytes "GET" ++ bytes "'"), db_a))
    × ((n : ℕ)
        → arity documented (bytes "GET") ≡ some n
        → length (bytes "GET" ∷ []) ≢ n
        → execute_command (register_commands digit) (bytes "GET" ∷ []) db_a
          ≡ ok (simple_string (bytes "'" ++ bytes "GET" ++ bytes "'命令参数数量不对"), db_a))
execute_command_refused_example = execute_command_refused digit (bytes "GET") [] db_a

get_request_example :
    Returns
      (execute_command (register_commands digit) (bytes "GET" ∷ key_a ∷ []) db_a)
      λ r. Same db_a r.1 × (v : Bytes) × Got db_a key_a v × (r.0 ≡ bulk_string v)
get_request_example = get_request digit db_a key_a db_a-IsLive key_a-IsStringKey

set_request_example :
    Returns
      (execute_command (register_commands digit) (bytes "SET" ∷ key_a ∷ (50 ∷ []) ∷ []) db_a)
      λ r. With db_a key_a (entry_str key_a (50 ∷ [])) r.1 × (r.0 ≡ simple_string (bytes "OK"))
set_request_example =
    set_request digit db_a key_a db_a-IsLive key_a-IsStringKey (50 ∷ []) (omega arith)

del_request_example :
    Returns (execute_command (register_commands digit) (bytes "DEL" ∷ key_a ∷ []) db_a) λ r.
      (done : Bool) × Deleted db_a key_a r.1 done
      × (r.0 ≡ integer (if done then pos 1 else negsuc 0))
del_request_example = del_request digit db_a key_a db_a-IsLive key_a-IsStringKey
