-- ===== src/Client/Exchange.antt =====
-- A request of src/client/main.cpp that server/src/network/connection.cpp serves, and its answer.
use redis_like.Client.Deserializer.{parse_data}
use redis_like.Client.Program.{complete, read_full, k_max_msg, send_req, read_res}
use redis_like.Client.RoundTrip.{received, IsSendable, parse_data-serialize}
use redis_like.Client.Wire.{
  joined, AreChunks, read_full-joined, write_all-complete, send_req-encode, length-encode_strs,
}
use redis_like.Network.Connection.{Conntion, try_one_request}
use redis_like.Network.Pipeline.{try_one_request_alone}
use redis_like.Protocol.Frames.{
  encode_str, encode_strs, encode_req, take-length-append, drop-length-append,
  parser_req-encode_req,
}
use redis_like.Protocol.Parser.{k_max_args}
use redis_like.Protocol.Response.{Response}
use redis_like.Protocol.Serializer.{serialize}
use redis_like.Protocol.Words.{to_bytes, of_bytes, length-to_bytes, of_bytes-to_bytes}
use redis_like.Store.Objects.{Bytes}
use redis_like.Prelude.{
  ℕ, ◌≤◌, ltb, true, false, List, [], ◌++◌, ◌≡◌, refl, sym, ap, ◌∙◌, arith, length, length-append,
  take, drop, Run, ok, Returns, pos, ltb_ℤ, append-nil, le→ltb,
}

append_split : (a b c d : Bytes) → a ++ b ≡ c ++ d → length a ≡ length c → (a ≡ c) × (b ≡ d)
append_split a b c d e l = (
  sym (take-length-append a b)
      ∙ ap (λ n. take n (a ++ b)) l
      ∙ ap (take (length c)) e
      ∙ take-length-append c d,
  sym (drop-length-append a b)
      ∙ ap (λ n. drop n (a ++ b)) l
      ∙ ap (drop (length c)) e
      ∙ drop-length-append c d,
)

-- However the answer is cut, its header and its body are read.
read_res-chunks :
    (res : Bytes) (header body rest : List Bytes)
    → length res ≤ k_max_msg
    → AreChunks header
    → AreChunks body
    → length (joined header) ≡ 4
    → joined header ++ joined body ≡ to_bytes (length res) ++ res
    → read_res (header ++ (body ++ rest)) ≡ complete (res, rest)
unfolding read_res
read_res-chunks res header body rest short h b four e =
    let (head, tail) =
      append_split (joined header) (joined body) (to_bytes (length res)) res e
        (four ∙ sym (length-to_bytes (length res))) in
    let first : read_full (header ++ (body ++ rest)) 4 ≡ complete (joined header, body ++ rest) =
      rw (← four) (read_full-joined header (body ++ rest) h) in
    let len : of_bytes (joined header) ≡ length res =
      ap of_bytes (head ∙ sym (append-nil (to_bytes (length res))))
      ∙ of_bytes-to_bytes (length res) [] (omega arith) in
    let fits : ltb k_max_msg (length res) ≡ false = le→ltb _ _ short in
    let second : read_full (body ++ rest) (length res) ≡ complete (res, rest) =
      rw (← tail) (read_full-joined body rest b) in
    rw (read_res, first, len, fits) second

-- A command of at most 32 strings, in a frame of at most 4096 bytes, that the client sends whole to an
-- idle open connection, and whose execution returns a response of at most 4096 bytes without a
-- "\r\n" in its simple strings: the server executes that command and no other, nothing of it is left
-- in the buffer, and however the answer is cut on its way, the client reads the response.
pub exchange :
    {Db : Type 0} (execute : List Bytes → Db → Run (Response × Db)) (cmd : List Bytes)
    (resp : Response) (db db' : Db) (conn : Conntion) (counts : List ℕ)
    → length cmd ≤ k_max_args
    → length (encode_req cmd) ≤ k_max_msg
    → execute cmd db ≡ ok (resp, db')
    → IsSendable resp
    → length (serialize resp) ≤ k_max_msg
    → ltb_ℤ conn.fd (pos 0) ≡ false
    → conn.write_buffer ≡ []
    → send_req counts cmd ≡ complete conn.read_buffer
    → Returns (try_one_request execute conn db) λ r.
      (r.0 ≡ true)
      × (r.2 ≡ db')
      × (r.1.read_buffer ≡ [])
      × ((header body rest : List Bytes)
          → AreChunks header
          → AreChunks body
          → length (joined header) ≡ 4
          → joined header ++ joined body ≡ r.1.write_buffer
          → (text : Bytes) × (read_res (header ++ (body ++ rest)) ≡ complete (text, rest))
            × (parse_data text ≡ ok (received resp, [])))
exchange execute cmd resp db db' conn counts few short run sendable answer open_fd idle sent =
    let body = encode_req cmd in
    let head = length-append (to_bytes (length cmd)) (encode_strs cmd) in
    let (_, _, fits, _) = length-encode_strs cmd 4 (omega (arith, length-to_bytes (length cmd))) in
    let frame : conn.read_buffer ≡ encode_str body =
      write_all-complete counts (encode_str body) conn.read_buffer
        (sym (send_req-encode counts cmd short) ∙ sent) in
    let served =
      try_one_request_alone execute conn db body [] (frame ∙ sym (append-nil (encode_str body)))
        open_fd (omega arith) cmd resp db' (omega arith) (parser_req-encode_req cmd few fits) run
        (omega arith) in
    let res = serialize resp in
    let end = append-nil res in
    let written : conn.write_buffer ++ encode_str res ≡ encode_str res =
      ap (λ w. w ++ encode_str res) idle in
    (
      (
        true,
        record conn { read_buffer = []; write_buffer = conn.write_buffer ++ encode_str res },
        db',
      ),
      served,
      (
        refl,
        refl,
        refl,
        λ header chunks rest h b four e. (
          res,
          read_res-chunks res header chunks rest answer h b four (e ∙ written),
          ap parse_data (sym end)
              ∙ parse_data-serialize resp [] sendable (omega (arith, length-append res [])),
        ),
      ),
    )
