-- ===== src/Dispatch/Execute.antt =====
-- server/src/command/command_dispatcher.cpp: the registry of the commands and `execute_command`.
use Prim.Native.String.{String}
use redis_like.Dispatch.Handlers.{
  Outcome, answered, raised, arg, handle_get, handle_set, handle_del, handle_zadd, handle_zrem,
  handle_zscore, handle_zrank, handle_zcard, handle_zrange, handle_zall, handle_zdel,
}
use redis_like.Protocol.Response.{Response, simple_string}
use redis_like.Store.Objects.{Bytes, Double, Database, same_bytes}
use redis_like.Prelude.{
  ℕ, ltb, if◌then◌else◌, ◌||◌, Option, none, some, List, [], ◌∷◌, ◌++◌, Run, ok, ◌>>=◌, length,
  bytes,
}

-- `CommandType`
pub data CommandType : Type 0 where
  get_type : CommandType
  set_type : CommandType
  del_type : CommandType
  zadd_type : CommandType
  zrem_type : CommandType
  zscore_type : CommandType
  zrank_type : CommandType
  zcard_type : CommandType
  zrange_type : CommandType
  zall_type : CommandType
  zdel_type : CommandType

-- `Command`
pub record Command (Score : Type 0) : Type 0 where
  pub name : Bytes
  pub type : CommandType
  pub min_args : ℕ
  pub max_args : ℕ
  pub syntax : Bytes
  pub handler : List Bytes → Database Score → Run (Outcome × Database Score)

unfoldable pub make_error_response : Bytes → Response
make_error_response error_msg = simple_string error_msg

module _ {Score : Type 0} where
  -- `registry_[cmd.name] = cmd`: the latest one of a name is found first.
  unfoldable pub regiser_command : List (Command Score) → Command Score → List (Command Score)
  regiser_command registry cmd = cmd ∷ registry

  unfoldable pub find_command : List (Command Score) → Bytes → Option (Command Score)
  find_command [] name = none
  find_command (cmd ∷ registry) name =
      let rest = find_command registry name in if same_bytes cmd.name name then some cmd else rest

  abbrev pub command :
      String
      → CommandType
      → ℕ
      → String
      → (List Bytes → Database Score → Run (Outcome × Database Score))
      → Command Score
  command name type args syntax handler = record {
    name = bytes name;
    type = type;
    min_args = args;
    max_args = args;
    syntax = bytes syntax;
    handler = handler;
  }

  unfoldable pub register_commands : Double Score → List (Command Score)
  unfolding regiser_command
  register_commands double =
      let r = regiser_command [] (command "GET" get_type 2 "GET key" handle_get) in
      let r = regiser_command r (command "SET" set_type 3 "SET key value" handle_set) in
      let r = regiser_command r (command "DEL" del_type 2 "DEL key" handle_del) in
      let r =
        regiser_command r
          (command "ZADD" zadd_type 4 "ZADD key score member" (handle_zadd double)) in
      let r = regiser_command r (command "ZREM" zrem_type 3 "ZREM key member" handle_zrem) in
      let r =
        regiser_command r
          (command "ZSCORE" zscore_type 3 "ZSCORE key member" (handle_zscore double)) in
      let r = regiser_command r (command "ZRANK" zrank_type 3 "ZRANK key member" handle_zrank) in
      let r = regiser_command r (command "ZCARD" zcard_type 2 "ZCARD key" handle_zcard) in
      let r =
        regiser_command r
          (command "ZRANGE" zrange_type 4 "ZRANGE key min max" (handle_zrange double)) in
      let r = regiser_command r (command "ZALL" zall_type 2 "ZALL key" (handle_zall double)) in
      regiser_command r (command "ZDEL" zdel_type 2 "ZDEL key" handle_zdel)

  -- `validate_args`: the error message, or `none` for a valid result. A request has at most
  -- `k_max_args` arguments, so that `int32_t` holds their number.
  unfoldable pub validate_args : Command Score → List Bytes → Option Bytes
  validate_args cmd args =
      if ltb (length args) cmd.min_args || ltb cmd.max_args (length args)
      then some (bytes "'" ++ cmd.name ++ bytes "'命令参数数量不对")
      else none

  -- The `catch` around a handler.
  unfoldable pub caught : Outcome × Database Score → Response × Database Score
  unfolding make_error_response
  caught (answered response, db) = (response, db)
  caught (raised what, db) = (make_error_response what, db)

  -- What follows the search of the registry.
  unfoldable pub dispatch :
      Option (Command Score) → Bytes → List Bytes → Database Score → Run (Response × Database Score)
  unfolding validate_args make_error_response caught
  dispatch none name args db = ok (make_error_response (bytes "未知命令 '" ++ name ++ bytes "'"), db)
  dispatch (some cmd) name args db = elim (validate_args cmd args) [
    | some error_msg ↦ ok (make_error_response error_msg, db)
    | none ↦ do outcome ← cmd.handler args db; ok (caught outcome)
  ]

  unfoldable pub execute_command :
      List (Command Score) → List Bytes → Database Score → Run (Response × Database Score)
  unfolding find_command dispatch
  execute_command registry args db = do
    name ← arg args 0
    dispatch (find_command registry name) name args db
