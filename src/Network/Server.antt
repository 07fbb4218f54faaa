-- ===== src/Network/Server.antt =====
-- server/src/network/server.cpp: a round of the loop of `run`, over what `poll` and `accept` return.
use redis_like.Network.Connection.{Conntion}
use redis_like.Network.Events.{ReadResult, WriteResult, handle_read, handle_write}
use redis_like.Protocol.Parser.{Bytes}
use redis_like.Protocol.Response.{Response}
use redis_like.Prelude.{
  ℕ, ◌+◌, ◌-◌, leb, ltb_ℤ, if◌then◌else◌, Bool, true, ◌||◌, Option, none, some, List, [], ◌∷◌, ◌++◌,
  length, get_elem?, set, replicate, Run, ok, undefined, ◌>>=◌, ℤ, pos, negsuc,
}

-- `pollfd`: the descriptor, with POLLIN and POLLOUT of its `events`; POLLERR is in all of them.
pub record Pollfd : Type 0 where
  pub fd : ℤ
  pub poll_in : Bool
  pub poll_out : Bool

-- The events of `revents` that the loop tests, with what the system calls of the handlers return:
-- `read`, and `write` of `handle_read` and of `handle_write`.
pub record Revents : Type 0 where
  pub poll_in : Bool
  pub poll_out : Bool
  pub poll_err : Bool
  pub result : ReadResult
  pub answered : WriteResult
  pub written : WriteResult

-- What `accept` returns, and what the memory of the new connection holds in the two flags that its
-- constructor does not set.
pub record Accepted : Type 0 where
  pub connfd : ℤ
  pub is_write : Bool
  pub is_close : Bool

-- What `poll` comes to: EINTR, another error, or the events, with `accept` where the listening
-- descriptor has POLLIN alone.
pub data Polled : Type 0 where
  interrupted : Polled
  poll_failed : Polled
  polled : Option Accepted → (ℤ → Revents) → Polled

-- `conn_pool`: `none` is a null pointer.
abbrev pub Pool : Type 0
Pool = List (Option Conntion)

-- The loop that fills `pollfd_args`, behind the listening descriptor.
unfoldable pub pollfds_of : Pool → List Pollfd
pollfds_of [] = []
pollfds_of (none ∷ pool) = pollfds_of pool
pollfds_of (some conn ∷ pool) =
    record { fd = conn.fd; poll_in = conn.is_read; poll_out = conn.is_write } ∷ pollfds_of pool

-- `Conntion::Conntion`
abbrev pub new_conntion : Accepted → Conntion
new_conntion a = record {
  fd = a.connfd;
  is_read = true;
  is_write = a.is_write;
  is_close = a.is_close;
  read_buffer = [];
  write_buffer = [];
}

-- A null result is `none`.
unfoldable pub handle_accept : Accepted → Option Conntion
handle_accept a = if ltb_ℤ a.connfd (pos 0) then none else some (new_conntion a)

-- `conn_pool.resize`, to more.
abbrev pub resize : Pool → ℕ → Pool
resize pool n = pool ++ replicate (n - length pool) none

-- The pool grows up to the new connection.
unfoldable pub add_conn : Pool → Conntion → Run Pool
add_conn pool conn = elim conn.fd [
  | negsuc _ ↦ undefined
  | pos fd ↦
      let grown = if leb (length pool) fd then resize pool (fd + 1) else pool in
      ok (set grown fd (some conn))
]

-- `conn_pool[fd]`, which is dereferenced.
unfoldable pub conn_at : Pool → ℤ → Run Conntion
conn_at pool (negsuc _) = undefined
conn_at pool (pos fd) = elim (get_elem? pool fd) [
  | none ↦ undefined
  | some conn ↦ elim conn [ none ↦ undefined | some conn ↦ ok conn ]
]

-- The state of `*conn_pool[fd]`, or the null pointer.
abbrev pub put_conn : Pool → ℤ → Option Conntion → Pool
put_conn pool (negsuc _) conn = pool
put_conn pool (pos fd) conn = set pool fd conn

module _ {Db : Type 0} (execute : List Bytes → Db → Run (Response × Db)) where
  -- POLLIN, then POLLOUT.
  unfoldable pub call_handlers : Revents → Conntion → Db → Run (Conntion × Db)
  unfolding handle_read handle_write
  call_handlers revents conn db = do
    (conn', db') ←
        if revents.poll_in
        then handle_read execute revents.result revents.answered conn db
        else ok (conn, db)
    ok (if revents.poll_out then handle_write revents.written conn' else conn', db')

  -- POLLERR closes the connection: its pointer becomes null.
  unfoldable pub handle_conn : Revents → ℤ → Pool → Db → Run (Pool × Db)
  unfolding conn_at call_handlers
  handle_conn revents fd pool db = do
    conn ← conn_at pool fd
    (conn', db') ← call_handlers revents conn db
    ok (put_conn pool conn'.fd (if revents.poll_err then none else some conn'), db')

  -- With other events alone the pointer is not followed.
  unfoldable pub handle_events : Revents → ℤ → Pool → Db → Run (Pool × Db)
  unfolding handle_conn
  handle_events revents fd pool db =
      if revents.poll_in || (revents.poll_out || revents.poll_err)
      then handle_conn revents fd pool db
      else ok (pool, db)

  -- The loop over the connections.
  unfoldable pub handle_sockets : List Pollfd → (ℤ → Revents) → Pool → Db → Run (Pool × Db)
  unfolding handle_events
  handle_sockets [] events pool db = ok (pool, db)
  handle_sockets (pfd ∷ pollfds) events pool db = do
    (pool', db') ← handle_events (events pfd.fd) pfd.fd pool db
    handle_sockets pollfds events pool' db'

  -- A round. Where `accept` fails, the connections wait for the next one.
  unfoldable pub run_round : Polled → Pool → Db → Run (Pool × Db)
  unfolding pollfds_of handle_accept add_conn handle_sockets
  run_round interrupted pool db = ok (pool, db)
  run_round poll_failed pool db = ok (pool, db)
  run_round (polled none events) pool db = handle_sockets (pollfds_of pool) events pool db
  run_round (polled (some a) events) pool db = elim (handle_accept a) [
    | none ↦ ok (pool, db)
    | some conn ↦ do pool' ← add_conn pool conn; handle_sockets (pollfds_of pool) events pool' db
  ]
