-- ===== src/Network/Rounds.antt =====
-- A round of `run` in server/src/network/server.cpp, and the connections in its pool.
use redis_like.Network.Connection.{Conntion}
use redis_like.Network.Events.{handle_write}
use redis_like.Network.Server.{
  Pollfd, Revents, Polled, interrupted, poll_failed, polled, Pool, pollfds_of, new_conntion,
  add_conn, handle_events,
}
use redis_like.Network.Serving.{ReadFaults}
use redis_like.Protocol.Parser.{Bytes}
use redis_like.Protocol.Response.{Response}
use redis_like.Prelude.{
  ℕ, ltb_ℤ, true, false, Option, none, some, List, ◌∷◌, ◌≡◌, set, Run, ok, ℤ, pos, if◌then◌else◌,
}
use redis_like.Network.Pool.{At, IsPool, IsFree}

-- The connection after POLLOUT.
abbrev written_by : Revents → Conntion → Conntion
written_by revents conn = if revents.poll_out then handle_write revents.written conn else conn

module _ {Db : Type 0} (execute : List Bytes → Db → Run (Response × Db)) where
  -- The connection is readable, and reads a request whose execution does not return.
  abbrev pub EventFaults : Revents → Conntion → Db → Type 0
  EventFaults revents conn db = (revents.poll_in ≡ true) × ReadFaults execute revents.result conn db

  -- This happens at a connection of the loop: the first one, or a later one, after the first was
  -- handled.
  pub data SocketsFault (events : ℤ → Revents) : List Pollfd → Pool → Db → Type 0 where
    here :
        (p : Pollfd) (ps : List Pollfd) (pool : Pool) (db : Db) (i : ℕ) (conn : Conntion)
        → p.fd ≡ pos i
        → At pool i conn
        → EventFaults (events (pos i)) conn db
        → SocketsFault events (p ∷ ps) pool db
    later :
        (p : Pollfd) (ps : List Pollfd) (pool : Pool) (db : Db) (pool' : Pool) (db' : Db)
        → handle_events execute (events p.fd) p.fd pool db ≡ ok (pool', db')
        → SocketsFault events ps pool' db'
        → SocketsFault events (p ∷ ps) pool db

  -- This happens in a round.
  abbrev pub RoundFaults : Polled → Pool → Db → Type 0
  RoundFaults interrupted pool db = ⊥
  RoundFaults poll_failed pool db = ⊥
  RoundFaults (polled none events) pool db = SocketsFault events (pollfds_of pool) pool db
  RoundFaults (polled (some a) events) pool db =
      (pool' : Pool) × (ltb_ℤ a.connfd (pos 0) ≡ false)
      × (add_conn pool (new_conntion a) ≡ ok pool')
      × SocketsFault events (pollfds_of pool) pool' db

  -- The pool after the events of one descriptor: only what stands there has changed.
  abbrev Changed : Pool → ℕ → Pool × Db → Type 0
  Changed pool i r = (c : Option Conntion) × (r.0 ≡ set pool i c) × IsPool r.0

  -- The descriptor that `accept` gives is of no connection.
  abbrev pub IsFresh : Polled → Pool → Type 0
  IsFresh interrupted pool = Unit
  IsFresh poll_failed pool = Unit
  IsFresh (polled none events) pool = Unit
  IsFresh (polled (some a) events) pool = IsFree pool a.connfd
