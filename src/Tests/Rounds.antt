-- ===== src/Tests/Rounds.antt =====
-- A concrete round of `run` in server/src/network/server.cpp.
use redis_like.Network.Connection.{Conntion}
use redis_like.Network.Events.{got, took}
use redis_like.Network.Server.{Pool, Polled, Revents, polled}
use redis_like.Protocol.Frames.{encode_str}
use redis_like.Tests.Connections.{with_buffer}
use redis_like.Tests.Requests.{get_a_bytes}
use redis_like.Prelude.{true, false, none, some, [], ◌∷◌, ℤ, pos}

-- A connection at descriptor 1.
abbrev first : Conntion
first = record (with_buffer []) { fd = pos 1 }

abbrev one_connection : Pool
one_connection = none ∷ some first ∷ []

-- A request arrives, and then an error.
abbrev busy : ℤ → Revents
busy fd = record {
  poll_in = true;
  poll_out = false;
  poll_err = true;
  result = got (encode_str get_a_bytes);
  answered = took 10;
  written = took 0;
}

-- A new connection at descriptor 4.
abbrev arrival : Polled
arrival = polled (some (record { connfd = pos 4; is_write = false; is_close = false })) busy
