-- ===== src/Tests/Connections.antt =====
-- Concrete buffers for server/src/network/connection.cpp.
use redis_like.Network.Connection.{Conntion, buffer_consume, respond, try_one_request}
use redis_like.Network.Events.{
  WriteResult, got, took, write_delayed, handle_read, handle_write, after_write,
}
use redis_like.Network.Writing.{flush, sent, ArePossible, IsFlagged, flush_joined}
use redis_like.Protocol.Serializer.{serialize, serialize_bulk_string, to_string, digits_onto}
use redis_like.Network.Serving.{ReadFaults, handle_read_returns}
use redis_like.Network.Pipeline.{try_one_request_alone, try_one_request_pipelined}
use redis_like.Protocol.Frames.{encode_str}
use redis_like.Protocol.Parser.{Bytes}
use redis_like.Protocol.Response.{Response, bulk_string, simple_string}
use redis_like.Tests.Requests.{get_a, get_a_bytes, get_a_parsed}
use redis_like.Prelude.{
  Returns, ◌⊎◌, ◌≢◌, ℕ, length, ◌+◌, true, false, List, [], ◌∷◌, ◌++◌, ◌≡◌, refl, arith, Run, ok,
  pos,
}

-- A database that counts the requests, and answers each with its name.
abbrev pub counting : List Bytes → ℕ → Run (Response × ℕ)
counting [] n = ok (simple_string [], n)
counting (name ∷ _) n = ok (bulk_string name, n + 1)

-- `GET b`
abbrev get_b_bytes : Bytes
get_b_bytes = 2 ∷ 0 ∷ 0 ∷ 0 ∷ 3 ∷ 0 ∷ 0 ∷ 0 ∷ 71 ∷ 69 ∷ 84 ∷ 1 ∷ 0 ∷ 0 ∷ 0 ∷ 98 ∷ []

abbrev pub with_buffer : Bytes → Conntion
with_buffer buffer = record {
  fd = pos 5;
  is_read = true;
  is_write = false;
  is_close = false;
  read_buffer = buffer;
  write_buffer = [];
}

answer_length : length (serialize (bulk_string (71 ∷ 69 ∷ 84 ∷ []))) ≡ 9
unfolding serialize serialize_bulk_string to_string digits_onto
answer_length = refl

try_one_request_alone_example :
    try_one_request counting (with_buffer (encode_str get_a_bytes ++ (16 ∷ []))) 0
    ≡ ok (
      true,
      record (with_buffer (16 ∷ [])) {
        write_buffer = [] ++ encode_str (serialize (bulk_string (71 ∷ 69 ∷ 84 ∷ [])));
      },
      1,
    )
try_one_request_alone_example =
    try_one_request_alone counting (with_buffer (encode_str get_a_bytes ++ (16 ∷ []))) 0 get_a_bytes
      (16 ∷ []) refl refl (omega arith) get_a (bulk_string (71 ∷ 69 ∷ 84 ∷ [])) 1 (omega arith)
      get_a_parsed refl (omega (arith, answer_length))

try_one_request_pipelined_example :
    try_one_request counting (with_buffer (encode_str get_b_bytes ++ encode_str get_a_bytes)) 0
    ≡ ok (true, respond (with_buffer (encode_str get_a_bytes)) (bulk_string (71 ∷ 69 ∷ 84 ∷ [])), 1)
try_one_request_pipelined_example =
    try_one_request_pipelined counting
      (with_buffer (encode_str get_b_bytes ++ encode_str get_a_bytes)) 0 get_b_bytes get_a_bytes
      refl refl (omega arith) refl get_a (bulk_string (71 ∷ 69 ∷ 84 ∷ [])) 1 get_a_parsed refl

handle_read_returns_example :
    (Returns
        (handle_read counting (got (encode_str get_a_bytes)) (took 10) (with_buffer []) 0)
        (λ r. r.0.fd ≡ pos 5)
      ⊎ ReadFaults counting (got (encode_str get_a_bytes)) (with_buffer []) 0)
    × (ReadFaults counting (got (encode_str get_a_bytes)) (with_buffer []) 0
        → (r : Conntion × ℕ)
        → handle_read counting (got (encode_str get_a_bytes)) (took 10) (with_buffer []) 0 ≢ ok r)
handle_read_returns_example =
    handle_read_returns counting (got (encode_str get_a_bytes)) (took 10) (with_buffer []) 0

-- Three bytes to write.
abbrev writing : Conntion
writing = record (with_buffer []) {
  write_buffer = 1 ∷ 2 ∷ 3 ∷ [];
  is_read = false;
  is_write = true;
}

-- Two bytes go, then none, then the last one.
abbrev in_three_calls : List WriteResult
in_three_calls = took 2 ∷ write_delayed ∷ took 1 ∷ []

in_three_calls-possible : ArePossible in_three_calls writing
unfolding handle_write after_write buffer_consume
in_three_calls-possible = (omega arith, (tt, (omega arith, tt)))

flush_joined_example :
    (sent in_three_calls writing ++ (flush in_three_calls writing).write_buffer
      ≡ writing.write_buffer)
    × ((flush in_three_calls writing).read_buffer ≡ writing.read_buffer)
    × IsFlagged (flush in_three_calls writing)
flush_joined_example =
    flush_joined in_three_calls writing refl (omega arith)
      (λ h. absurd (omega arith), λ h. (refl, refl)) in_three_calls-possible
