-- ===== src/Client/RoundTrip.antt =====
-- `parse` of client/deserializer.cpp reads what `serialize` of server/src/protocol/serializer.cpp writes.
use redis_like.Client.Decimals.{to_int32-IsWord}
use redis_like.Client.Deserializer.{
  parse_simple_string, parse_error, parse_type, parse_one, parse_elements, parse, parse_data,
  get_remaining_data,
}
use redis_like.Client.Lines.{drop_after, length-drop, line_after, IsLine, read_line-append}
use redis_like.Protocol.Response.{
  Response, Responses, nil, cons, simple_string, error, integer, bulk_string, array,
  null_bulk_string,
}
use redis_like.Protocol.Serializer.{
  to_int32, to_string, to_string_int, crlf, serialize, serialize_all, count_responses,
  serialize_simple_string, serialize_error, serialize_integer, serialize_bulk_string,
  serialize_null_bulk_string,
}
use redis_like.Client.Replies.{
  parse_bulk_string-append, parse_integer-append, parse_array-append, parse_null-append,
  parse_one-type,
}
use redis_like.Protocol.Frames.{drop-length-append}
use redis_like.Store.Objects.{Bytes}
use redis_like.Prelude.{
  ℕ, zero, suc, ◌+◌, ◌^◌, ◌≤◌, ◌<◌, leb, true, false, Option, some, [], ◌∷◌, ◌++◌, ◌≡◌, refl, ap,
  ◌∙◌, arith, length, length-append, drop, Run, ok, append_assoc,
}

abbrev mutual
  -- The response at the client: an integer went through `int32_t`, and an array that is sent is not
  -- null.
  pub received : Response → Response
  received (simple_string s) = simple_string s
  received (error s) = error s
  received (integer n) = integer (to_int32 n)
  received (bulk_string s) = bulk_string s
  received (array _ rs) = array false (received_all rs)
  received null_bulk_string = null_bulk_string

  pub received_all : Responses → Responses
  received_all nil = nil
  received_all (cons r rs) = cons (received r) (received_all rs)

abbrev mutual
  -- Simple strings and errors are lines.
  pub IsSendable : Response → Type 0
  IsSendable (simple_string s) = IsLine s
  IsSendable (error s) = IsLine s
  IsSendable (integer n) = Unit
  IsSendable (bulk_string s) = Unit
  IsSendable (array _ rs) = AreSendable rs
  IsSendable null_bulk_string = Unit

  pub AreSendable : Responses → Type 0
  AreSendable nil = Unit
  AreSendable (cons r rs) = IsSendable r × AreSendable rs

serialize-long : (r : Response) → 1 ≤ length (serialize r)
unfolding serialize serialize_simple_string serialize_error serialize_integer serialize_bulk_string
    serialize_null_bulk_string
serialize-long (simple_string s) = omega arith
serialize-long (error s) = omega arith
serialize-long (integer n) = omega arith
serialize-long (bulk_string s) = omega arith
serialize-long (array z rs) = omega arith
serialize-long null_bulk_string = omega arith

-- There are no more elements than bytes.
count-le-length : (rs : Responses) → count_responses rs ≤ length (serialize_all rs)
unfolding count_responses serialize_all
count-le-length nil = omega arith
count-le-length (cons r rs) =
    omega
      (arith, serialize-long r, length-append (serialize r) (serialize_all rs), count-le-length rs)

module _ (buffer : Bytes) (small : length buffer < 2 ^ 63) where
  abbrev at_end : Response → ℕ → Run (Option Response × ℕ)
  at_end r at = ok (some r, at)

  mutual
    unfolding serialize serialize_all count_responses parse_type parse_simple_string parse_error
        parse_elements

    -- The bytes of a response, at a position of the buffer.
    read_one :
        (r : Response) (fuel at : ℕ) (post : Bytes)
        → IsSendable r
        → drop at buffer ≡ serialize r ++ post
        → length (serialize r) ≤ fuel + 1
        → parse_one (parse_elements buffer fuel) buffer at
          ≡ ok (some (received r), at + length (serialize r))
    read_one (simple_string s) fuel at post k e enough =
        let end : at + 1 + length s + 2 ≡ at + suc (length (s ++ crlf)) =
          omega (arith, length-append s crlf) in
        parse_one-type buffer small (parse_elements buffer fuel) at 43 ((s ++ crlf) ++ post) _ e
          (λ e'.
            rw
              (
                parse_type,
                parse_simple_string,
                read_line-append buffer (at + 1) s post k (e' ∙ append_assoc s crlf post),
              )
              refl)
        ∙ ap (at_end (simple_string s)) end
    read_one (error s) fuel at post k e enough =
        let end : at + 1 + length s + 2 ≡ at + suc (length (s ++ crlf)) =
          omega (arith, length-append s crlf) in
        parse_one-type buffer small (parse_elements buffer fuel) at 45 ((s ++ crlf) ++ post) _ e
          (λ e'.
            rw
              (
                parse_type,
                parse_error,
                read_line-append buffer (at + 1) s post k (e' ∙ append_assoc s crlf post),
              )
              refl)
        ∙ ap (at_end (error s)) end
    read_one (integer n) fuel at post k e enough =
        let text = to_string_int (to_int32 n) in
        let end : at + 1 + length text + 2 ≡ at + suc (length (text ++ crlf)) =
          omega (arith, length-append text crlf) in
        parse_one-type buffer small (parse_elements buffer fuel) at 58 ((text ++ crlf) ++ post) _ e
          (λ e'.
            parse_integer-append buffer small (at + 1) (to_int32 n) post (to_int32-IsWord n)
              (e' ∙ append_assoc text crlf post))
        ∙ ap (at_end (integer (to_int32 n))) end
    read_one (bulk_string s) fuel at post k e enough =
        let text = to_string (length s) in
        let whole = ((text ++ crlf) ++ s) ++ crlf in
        let end : at + 1 + length text + 2 + length s + 2 ≡ at + suc (length whole) = omega (
          arith,
          length-append ((text ++ crlf) ++ s) crlf,
          length-append (text ++ crlf) s,
          length-append text crlf,
        ) in
        let split : whole ++ post ≡ text ++ 13 ∷ 10 ∷ (s ++ 13 ∷ 10 ∷ post) = simp append_assoc in
        parse_one-type buffer small (parse_elements buffer fuel) at 36 (whole ++ post) _ e
          (λ e'. parse_bulk_string-append buffer small (at + 1) s post (e' ∙ split))
        ∙ ap (at_end (bulk_string s)) end
    read_one (array z rs) fuel at post k e enough =
        let n = count_responses rs in
        let text = to_string n in
        let body = (text ++ crlf) ++ serialize_all rs in
        let after = serialize_all rs ++ post in
        let l : length body ≡ length text + 2 + length (serialize_all rs) =
          omega (arith, length-append (text ++ crlf) (serialize_all rs), length-append text crlf) in
        let whole = length-drop buffer at (42 ∷ (body ++ post)) e (omega arith) in
        let few : n < 2 ^ 63 =
          omega (arith, count-le-length rs, whole, l, length-append body post) in
        let split : body ++ post ≡ text ++ 13 ∷ 10 ∷ after = simp append_assoc in
        parse_one-type buffer small (parse_elements buffer fuel) at 42 (body ++ post) _ e (λ e'.
          parse_array-append buffer small (parse_elements buffer fuel) (at + 1) n (received_all rs)
            (at + 1 + length text + 2 + length (serialize_all rs)) after few (e' ∙ split)
            (read_all rs fuel (at + 1 + length text + 2) post k
              (line_after buffer (at + 1) text after (e' ∙ split)) (omega (arith, l))))
        ∙ ap (at_end (array false (received_all rs))) (omega (arith, l))
    read_one null_bulk_string fuel at post k e enough =
        let end : at + 1 + 2 + 2 ≡ at + 5 = omega arith in
        parse_one-type buffer small (parse_elements buffer fuel) at 36 (45 ∷ 49 ∷ 13 ∷ 10 ∷ post) _
          e (λ e'. parse_null-append buffer small (at + 1) post e')
        ∙ ap (at_end null_bulk_string) end

    read_all :
        (rs : Responses) (fuel at : ℕ) (post : Bytes)
        → AreSendable rs
        → drop at buffer ≡ serialize_all rs ++ post
        → length (serialize_all rs) ≤ fuel
        → parse_elements buffer fuel (count_responses rs) at
          ≡ ok (some (received_all rs), at + length (serialize_all rs))
    read_all nil zero at post k e enough = let end : at ≡ at + 0 = omega arith in rw (← end) refl
    read_all nil (suc fuel) at post k e enough =
        let end : at ≡ at + 0 = omega arith in rw (← end) refl
    read_all (cons r rs) zero at post k e enough =
        absurd (omega (arith, length-append (serialize r) (serialize_all rs), serialize-long r))
    read_all (cons r rs) (suc fuel) at post (k, ks) e enough =
        let l = length-append (serialize r) (serialize_all rs) in
        let one_more : 1 + count_responses rs ≡ suc (count_responses rs) = omega arith in
        let end : at + length (serialize r) + length (serialize_all rs)
            ≡ at + length (serialize r ++ serialize_all rs) =
          omega (arith, l) in
        let e' = e ∙ append_assoc (serialize r) (serialize_all rs) post in
        let first = read_one r fuel at (serialize_all rs ++ post) k e' (omega (arith, l)) in
        let rest =
          read_all rs fuel (at + length (serialize r)) post ks
            (drop_after buffer at (serialize r) (serialize_all rs ++ post) e')
            (omega (arith, l, serialize-long r)) in
        rw one_more (rw (first, rest, end) refl)

-- What is behind a text that was read.
remaining :
    (x post : Bytes) → get_remaining_data (record { buffer = x ++ post; pos_ = length x }) ≡ post
remaining x [] =
    let all : leb (length (x ++ [])) (length x) ≡ true = ground (arith, length-append x []) in
    rw all refl
remaining x (b ∷ post) =
    let more : leb (length (x ++ (b ∷ post))) (length x) ≡ false =
      ground (arith, length-append x (b ∷ post)) in
    rw more (drop-length-append x (b ∷ post))

-- The client reads a response that the server serializes, whatever follows it: the same response, with
-- every integer as its `int32_t`. Simple strings and errors must not hold a "\r\n".
pub parse_data-serialize :
    (r : Response) (post : Bytes)
    → IsSendable r
    → length (serialize r ++ post) < 2 ^ 63
    → parse_data (serialize r ++ post) ≡ ok (received r, post)
unfolding parse_data parse
parse_data-serialize r post k small =
    let buffer = serialize r ++ post in
    let run : parse_one (parse_elements buffer (length buffer + 1)) buffer 0
        ≡ ok (some (received r), 0 + length (serialize r)) =
      read_one buffer small r (length buffer + 1) 0 post k refl
        (omega (arith, length-append (serialize r) post)) in
    let end : 0 + length (serialize r) ≡ length (serialize r) = omega arith in
    rw (run, end) (ap (λ w. ok (received r, w)) (remaining (serialize r) post))
