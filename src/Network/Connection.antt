-- ===== src/Network/Connection.antt =====
-- server/src/network/connection.cpp, `try_one_request`, with the buffers of
-- server/src/utils/buffer/bufferPool.cpp.
use redis_like.Protocol.Parser.{Bytes, parser_req}
use redis_like.Protocol.Response.{Response}
use redis_like.Protocol.Serializer.{serialize}
use redis_like.Protocol.Words.{to_bytes, of_bytes}
use redis_like.Prelude.{
  ℕ, ◌+◌, ◌-◌, ◌*◌, ◌%◌, ◌^◌, ltb, if◌then◌else◌, Bool, true, false, none, some, List, ◌++◌, length,
  take, drop, Run, ok, ◌>>=◌, ℤ, pos, ltb_ℤ,
}

-- `Conntion`, with the flags of its `state`.
pub record Conntion : Type 0 where
  pub fd : ℤ
  pub is_read : Bool
  pub is_write : Bool
  pub is_close : Bool
  pub read_buffer : Bytes
  pub write_buffer : Bytes

unfoldable pub buffer_append : Bytes → Bytes → Bytes
buffer_append buf added = buf ++ added

-- `erase` of the first bytes, of which there are as many: `write` takes no more than it is given,
-- and a request is taken once it is there.
unfoldable pub buffer_consume : Bytes → ℕ → Bytes
buffer_consume buf len = drop len buf

-- The block of memory of the buffer after `buffer_consume`: `erase` moves the bytes that stay to the
-- front, and the bytes behind them are as they were.
unfoldable pub block_after : Bytes → ℕ → Bytes
block_after buf len = drop len buf ++ drop (length buf - len) buf

-- What stands at `request_data` when the parser reads it.
unfoldable pub request_seen : Bytes → ℕ → Bytes
unfolding block_after
request_seen read_buffer len = take len (drop 4 (block_after read_buffer (len + 4)))

abbrev pub k_max_msg : ℕ
k_max_msg = 32 * 2 ^ 20

-- A request that was parsed: the response goes to the write buffer, with its length in front, which
-- `resp_len` holds in 32 bits.
unfoldable pub respond : Conntion → Response → Conntion
unfolding buffer_append
respond conn resp =
    let res = serialize resp in
    let resp_len = length res % 2 ^ 32 in
    record conn {
      write_buffer =
          buffer_append (buffer_append conn.write_buffer (to_bytes resp_len)) (take resp_len res);
    }

module _ {Db : Type 0} (execute : List Bytes → Db → Run (Response × Db)) where
  -- The end of `try_one_request`, after the checks. `execute` is the dispatcher's `execute_command`.
  unfoldable pub run_request : Conntion → ℕ → Db → Run (Bool × Conntion × Db)
  unfolding buffer_consume request_seen
  run_request conn len db =
      let conn' = record conn { read_buffer = buffer_consume conn.read_buffer (len + 4) } in
      elim (parser_req (request_seen conn.read_buffer len)) [
        | none ↦ ok (false, conn', db)
        | some args ↦ do (resp, db') ← execute args db; ok (true, respond conn' resp, db')
      ]

  unfoldable pub try_one_request : Conntion → Db → Run (Bool × Conntion × Db)
  unfolding run_request of_bytes
  try_one_request conn db =
      let len = of_bytes (take 4 conn.read_buffer) in
      if ltb_ℤ conn.fd (pos 0)
      then ok (false, conn, db)
      else if ltb (length conn.read_buffer) 4
      then ok (false, conn, db)
      else if ltb k_max_msg len
      then ok (false, conn, db)
      else if ltb (length conn.read_buffer) ((len + 4) % 2 ^ 32)
      then ok (false, conn, db)
      else run_request conn len db
