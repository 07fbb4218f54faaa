-- ===== src/Client/Replies.antt =====
-- The functions of client/deserializer.cpp for the types of a response, on what server/src/protocol
-- writes after the type.
use redis_like.Client.Decimals.{
  not_null, to_string-IsLine, to_string_int-IsLine, stoll-to_string, IsWord, stoll-to_string_int,
}
use redis_like.Client.Deserializer.{
  parse_integer, bulk_of, parse_bulk_string, array_of, parse_array, parse_type, parse_one, Elements,
}
use redis_like.Client.Lines.{
  drop_after, get_elem?-drop, length-drop, line_after, read_line-append, skip_crlf-append,
}
use redis_like.Protocol.Response.{
  Response, Responses, integer, bulk_string, array, null_bulk_string,
}
use redis_like.Protocol.Serializer.{to_string, to_string_int}
use redis_like.Protocol.Frames.{take-length-append}
use redis_like.Store.Objects.{Bytes, same_bytes}
use redis_like.Prelude.{
  ℕ, ◌+◌, ◌%◌, ◌^◌, ◌<◌, ltb, false, Option, some, [], ◌∷◌, ◌++◌, ◌≡◌, refl, arith, length,
  length-append, drop, Run, ok, ℤ, bytes,
}

module _ (buffer : Bytes) (small : length buffer < 2 ^ 63) where
  -- What follows the length of a string.
  bulk_of-append :
      (at : ℕ) (s rest : Bytes)
      → drop at buffer ≡ s ++ 13 ∷ 10 ∷ rest
      → bulk_of buffer (to_string (length s)) at ≡ ok (some (bulk_string s), at + length s + 2)
  unfolding bulk_of
  bulk_of-append at s rest e =
      let total = length-append s (13 ∷ 10 ∷ rest) in
      let whole = length-drop buffer at (s ++ 13 ∷ 10 ∷ rest) e (omega arith) in
      let number = stoll-to_string (length s) (omega arith) in
      let inside : ltb (length buffer) ((at + length s + 2) % 2 ^ 64) ≡ false = ground arith in
      let here = drop_after buffer at s (13 ∷ 10 ∷ rest) e in
      rw (bulk_of, number, inside, skip_crlf-append buffer (at + length s) rest here)
        (rw (e, take-length-append s (13 ∷ 10 ∷ rest)) refl)

  pub parse_bulk_string-append :
      (at : ℕ) (s rest : Bytes)
      → drop at buffer ≡ to_string (length s) ++ 13 ∷ 10 ∷ (s ++ 13 ∷ 10 ∷ rest)
      → parse_bulk_string buffer at
        ≡ ok (some (bulk_string s), at + length (to_string (length s)) + 2 + length s + 2)
  unfolding parse_bulk_string
  parse_bulk_string-append at s rest e =
      let line = to_string (length s) in
      let after = s ++ 13 ∷ 10 ∷ rest in
      rw
        (
          parse_bulk_string,
          read_line-append buffer at line after (to_string-IsLine (length s)) e,
          not_null (length s),
          bulk_of-append (at + length line + 2) s rest (line_after buffer at line after e),
        )
        refl

  pub parse_integer-append :
      (at : ℕ) (n : ℤ) (rest : Bytes)
      → IsWord n
      → drop at buffer ≡ to_string_int n ++ 13 ∷ 10 ∷ rest
      → parse_integer buffer at ≡ ok (some (integer n), at + length (to_string_int n) + 2)
  unfolding parse_integer
  parse_integer-append at n rest h e =
      rw
        (
          parse_integer,
          read_line-append buffer at (to_string_int n) rest (to_string_int-IsLine n) e,
          stoll-to_string_int n h,
        )
        refl

  pub parse_array-append :
      (elements : Elements) (at n : ℕ) (rs : Responses) (at' : ℕ) (rest : Bytes)
      → n < 2 ^ 63
      → drop at buffer ≡ to_string n ++ 13 ∷ 10 ∷ rest
      → elements n (at + length (to_string n) + 2) ≡ ok (some rs, at')
      → parse_array elements buffer at ≡ ok (some (array false rs), at')
  unfolding parse_array array_of
  parse_array-append elements at n rs at' rest h e run =
      rw
        (
          parse_array,
          read_line-append buffer at (to_string n) rest (to_string-IsLine n) e,
          not_null n,
          array_of,
          stoll-to_string n h,
          run,
        )
        refl

  pub parse_null-append :
      (at : ℕ) (rest : Bytes)
      → drop at buffer ≡ 45 ∷ 49 ∷ 13 ∷ 10 ∷ rest
      → parse_bulk_string buffer at ≡ ok (some null_bulk_string, at + 2 + 2)
  unfolding parse_bulk_string bytes same_bytes
  parse_null-append at rest e =
      rw (parse_bulk_string, read_line-append buffer at (45 ∷ 49 ∷ []) rest refl e) refl

  -- The type of the response, and the functions that it selects.
  pub parse_one-type :
      (elements : Elements) (at c : ℕ) (rest : Bytes) (r : Run (Option Response × ℕ))
      → drop at buffer ≡ c ∷ rest
      → (drop (at + 1) buffer ≡ rest → parse_type elements buffer c (at + 1) ≡ r)
      → parse_one elements buffer at ≡ r
  unfolding parse_one
  parse_one-type elements at c rest r e run =
      rw (parse_one, get_elem?-drop buffer at c rest e) (run (drop_after buffer at (c ∷ []) rest e))
