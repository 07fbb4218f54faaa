-- ===== src/Network/Pipeline.antt =====
-- What `try_one_request` of server/src/network/connection.cpp executes: the request, where at most
-- four bytes follow it in the buffer, and the next one, where that is as long.
use redis_like.Network.Connection.{
  buffer_append, buffer_consume, Conntion, request_seen, block_after, k_max_msg, respond,
  run_request, try_one_request,
}
use redis_like.Protocol.Frames.{encode_str, take-length-append, drop-length-append}
use redis_like.Protocol.Parser.{Bytes, parser_req}
use redis_like.Protocol.Response.{Response}
use redis_like.Protocol.Serializer.{serialize}
use redis_like.Protocol.Words.{
  to_bytes, of_bytes, length-to_bytes, take-to_bytes, of_bytes-to_bytes,
}
use redis_like.Prelude.{
  ℕ, ◌+◌, ◌-◌, ◌%◌, ◌^◌, ◌≤◌, ◌<◌, ltb, le→ltb, true, false, some, List, [], ◌∷◌, ◌++◌, ◌≡◌, refl,
  sym, ap, subst, ◌∙◌, arith, length, length-append, take, drop, append-nil, append_assoc, Run, ok,
  pos, ltb_ℤ,
}

length-encode_str :
    (body rest : Bytes) → length (encode_str body ++ rest) ≡ length body + 4 + length rest
length-encode_str body rest = omega (
  arith,
  length-append (encode_str body) rest,
  length-append (to_bytes (length body)) body,
  length-to_bytes (length body),
)

drop-encode_str : (body rest : Bytes) → drop (length body + 4) (encode_str body ++ rest) ≡ rest
drop-encode_str body rest =
    let whole : length (encode_str body) ≡ length body + 4 =
      omega (arith, length-append (to_bytes (length body)) body, length-to_bytes (length body)) in
    subst (λ k. drop k (encode_str body ++ rest) ≡ rest) whole
      (drop-length-append (encode_str body) rest)

consume-encode_str :
    (body rest : Bytes) → buffer_consume (encode_str body ++ rest) (length body + 4) ≡ rest
unfolding buffer_consume
consume-encode_str body rest = drop-encode_str body rest

-- The block after the erasure: what follows the request, over its front.
block_after-encode_str :
    (body rest : Bytes)
    → block_after (encode_str body ++ rest) (length body + 4)
      ≡ rest ++ drop (length rest) (encode_str body ++ rest)
unfolding block_after
block_after-encode_str body rest =
    let back : length (encode_str body ++ rest) - (length body + 4) ≡ length rest =
      omega (arith, length-encode_str body rest) in
    rw (back, drop-encode_str body rest) refl

-- At most four bytes reach the length in front, and not the request.
front_covered :
    (n : ℕ) (rest tail : Bytes)
    → length rest ≤ 4
    → drop 4 (rest ++ drop (length rest) (to_bytes n ++ tail)) ≡ tail
unfolding to_bytes
front_covered n [] tail few = refl
front_covered n (a ∷ []) tail few = refl
front_covered n (a ∷ b ∷ []) tail few = refl
front_covered n (a ∷ b ∷ c ∷ []) tail few = refl
front_covered n (a ∷ b ∷ c ∷ d ∷ []) tail few = refl
front_covered n (a ∷ b ∷ c ∷ d ∷ e ∷ rest) tail few = absurd (omega arith)

-- Where at most four bytes follow the request, the parser sees the request.
pub request_seen_short :
    (body rest : Bytes)
    → length rest ≤ 4
    → request_seen (encode_str body ++ rest) (length body) ≡ body
unfolding request_seen
request_seen_short body rest few =
    rw
      (
        block_after-encode_str body rest,
        append_assoc (to_bytes (length body)) body rest,
        front_covered (length body) rest (body ++ rest) few,
      )
      (take-length-append body rest)

-- Where a request of the same length follows, the parser sees that one.
pub request_seen_next :
    (body next : Bytes)
    → length next ≡ length body
    → request_seen (encode_str body ++ encode_str next) (length body) ≡ next
unfolding request_seen to_bytes
request_seen_next body next same =
    rw (block_after-encode_str body (encode_str next)) (rw (← same) (take-length-append next _))

-- The length in front is read as it was written.
of_bytes-encode_str :
    (body rest : Bytes)
    → length body < 2 ^ 32
    → of_bytes (take 4 (encode_str body ++ rest)) ≡ length body
of_bytes-encode_str body rest h =
    rw
      (
        append_assoc (to_bytes (length body)) body rest,
        take-to_bytes (length body) (body ++ rest),
        ← append-nil (to_bytes (length body)),
      )
      (of_bytes-to_bytes (length body) [] h)

take-length : (s : Bytes) → take (length s) s ≡ s
take-length s = ap (take (length s)) (sym (append-nil s)) ∙ take-length-append s []

-- An answer that fits 32 bits is appended whole, in the format of a string.
respond-encode_str :
    (conn : Conntion) (resp : Response)
    → length (serialize resp) < 2 ^ 32
    → respond conn resp
      ≡ record conn { write_buffer = conn.write_buffer ++ encode_str (serialize resp) }
unfolding respond buffer_append
respond-encode_str conn resp h =
    let res = serialize resp in
    let whole : length res % 2 ^ 32 ≡ length res = omega arith in
    ap (λ w. record conn { write_buffer = w })
      (ap (λ n. (conn.write_buffer ++ to_bytes n) ++ take n res) whole
        ∙ ap (λ w. (conn.write_buffer ++ to_bytes (length res)) ++ w) (take-length res)
        ∙ append_assoc conn.write_buffer (to_bytes (length res)) res)

module _ {Db : Type 0} (execute : List Bytes → Db → Run (Response × Db)) (conn : Conntion) (db : Db)
    (body rest : Bytes) (buffered : conn.read_buffer ≡ encode_str body ++ rest)
    (open_fd : ltb_ℤ conn.fd (pos 0) ≡ false) (short : length body ≤ k_max_msg) where
  -- The checks pass.
  try_one_request_complete :
      try_one_request execute conn db ≡ run_request execute conn (length body) db
  unfolding try_one_request
  try_one_request_complete =
      let len = of_bytes-encode_str body rest (omega arith) in
      let whole = length-encode_str body rest in
      let enough : ltb (length (encode_str body ++ rest)) 4 ≡ false =
        le→ltb _ _ (omega (arith, whole)) in
      let fits : ltb k_max_msg (length body) ≡ false = le→ltb _ _ short in
      let all_there : ltb (length (encode_str body ++ rest)) ((length body + 4) % 2 ^ 32) ≡ false =
        le→ltb _ _ (omega (arith, whole)) in
      rw (try_one_request, open_fd, buffered, len, enough, fits, all_there) refl

  -- What is executed is what the parser sees.
  executed :
      (seen : Bytes) (args : List Bytes) (resp : Response) (db' : Db)
      → request_seen (encode_str body ++ rest) (length body) ≡ seen
      → parser_req seen ≡ some args
      → execute args db ≡ ok (resp, db')
      → try_one_request execute conn db
        ≡ ok (true, respond (record conn { read_buffer = rest }) resp, db')
  unfolding run_request
  executed seen args resp db' sees parsed run =
      try_one_request_complete
      ∙ rw (run_request, buffered, sees, parsed, run)
          (rw (buffered, consume-encode_str body rest) refl)

  -- A complete request of at most 32 MB in the buffer of an open connection, followed by at most four
  -- bytes, that parses and whose execution returns a response of less than 4 GiB: `try_one_request`
  -- executes it, takes it from the buffer, and appends the bytes of the response to the write buffer,
  -- with their length in front.
  pub try_one_request_alone :
      (args : List Bytes) (resp : Response) (db' : Db)
      → length rest ≤ 4
      → parser_req body ≡ some args
      → execute args db ≡ ok (resp, db')
      → length (serialize resp) < 2 ^ 32
      → try_one_request execute conn db
        ≡ ok (
          true,
          record conn {
            read_buffer = rest;
            write_buffer = conn.write_buffer ++ encode_str (serialize resp);
          },
          db',
        )
  try_one_request_alone args resp db' few parsed run fits =
      executed body args resp db' (request_seen_short body rest few) parsed run
      ∙ ap (λ c. ok (true, c, db'))
          (respond-encode_str (record conn { read_buffer = rest }) resp fits)

-- Two requests of the same length in the buffer, of which the second one parses and its execution
-- returns: `try_one_request` takes the first one from the buffer and executes the second one, which
-- stays in the buffer.
pub try_one_request_pipelined :
    {Db : Type 0} (execute : List Bytes → Db → Run (Response × Db)) (conn : Conntion) (db : Db)
    (body next : Bytes)
    → conn.read_buffer ≡ encode_str body ++ encode_str next
    → ltb_ℤ conn.fd (pos 0) ≡ false
    → length body ≤ k_max_msg
    → length next ≡ length body
    → (args : List Bytes) (resp : Response) (db' : Db) → parser_req next ≡ some args
    → execute args db ≡ ok (resp, db')
    → try_one_request execute conn db
      ≡ ok (true, respond (record conn { read_buffer = encode_str next }) resp, db')
try_one_request_pipelined execute conn db body next buffered open_fd short same args resp db' parsed
      run =
    executed execute conn db body (encode_str next) buffered open_fd short next args resp db'
      (request_seen_next body next same) parsed run
