-- ===== src/Network/Events.antt =====
-- server/src/network/connection.cpp: `handle_read` and `handle_write`, over what the system calls
-- `read` and `write` return.
use redis_like.Network.Connection.{Conntion, buffer_append, buffer_consume, try_one_request}
use redis_like.Protocol.Parser.{Bytes}
use redis_like.Protocol.Response.{Response}
use redis_like.Prelude.{
  ◌%◌, ◌^◌, ℕ, zero, suc, ltb, ◌==◌, if◌then◌else◌, true, false, List, length, Run, ok, undefined,
  ◌>>=◌, pos, ltb_ℤ,
}

-- What `read` gives: bytes, the end of the stream, `EAGAIN` or another error.
pub data ReadResult : Type 0 where
  got : Bytes → ReadResult
  end_of_stream : ReadResult
  read_delayed : ReadResult
  read_failed : ReadResult

-- What `write` gives: how many bytes it took, of those that it was given, `EAGAIN` or another error.
pub data WriteResult : Type 0 where
  took : ℕ → WriteResult
  write_delayed : WriteResult
  write_failed : WriteResult

-- The end of `handle_write`, with `(uint32_t)rv`.
unfoldable pub after_write : Conntion → ℕ → Conntion
unfolding buffer_consume
after_write conn rv =
    let rest = buffer_consume conn.write_buffer (rv % 2 ^ 32) in
    if length rest == 0
    then record conn { write_buffer = rest; is_write = false; is_read = true }
    else record conn { write_buffer = rest }

unfoldable pub handle_write : WriteResult → Conntion → Conntion
unfolding after_write
handle_write result conn =
    if ltb_ℤ conn.fd (pos 0)
    then record conn { is_close = true }
    else if length conn.write_buffer == 0
    then conn
    else elim result [
      | write_delayed ↦ conn
      | write_failed ↦ record conn { is_close = true }
      | took rv ↦ after_write conn rv
    ]

-- The end of `handle_read`: what is to be written is tried at once.
unfoldable pub answer : WriteResult → Conntion → Conntion
unfolding handle_write
answer result conn =
    if ltb 0 (length conn.write_buffer)
    then handle_write result (record conn { is_read = false; is_write = true })
    else conn

module _ {Db : Type 0} (execute : List Bytes → Db → Run (Response × Db)) where
  -- The loop of `handle_read`, on fuel: `undefined` where it runs out.
  unfoldable pub serve : ℕ → Conntion → Db → Run (Conntion × Db)
  serve zero conn db = undefined
  serve (suc fuel) conn db = do
    (more, conn', db') ← try_one_request execute conn db
    elim more [ true ↦ serve fuel conn' db' | false ↦ ok (conn', db') ]

  unfoldable pub handle_read : ReadResult → WriteResult → Conntion → Db → Run (Conntion × Db)
  unfolding buffer_append serve answer
  handle_read result written conn db =
      let closed = ok (record conn { is_close = true }, db) in
      if ltb_ℤ conn.fd (pos 0) then closed else elim result [
        | read_delayed ↦ ok (conn, db)
        | read_failed ↦ closed
        | end_of_stream ↦ closed
        | got data' ↦ do
          let conn' = record conn { read_buffer = buffer_append conn.read_buffer data' }
          (conn'', db') ← serve (suc (length conn'.read_buffer)) conn' db
          ok (answer written conn'', db')
      ]
