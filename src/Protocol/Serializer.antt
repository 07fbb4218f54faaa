-- ===== src/Protocol/Serializer.antt =====
-- server/src/protocol/serializer.cpp: a response as bytes.
use redis_like.Protocol.Parser.{Bytes}
use redis_like.Protocol.Response.{
  Response, Responses, nil, cons, simple_string, error, integer, bulk_string, array,
  null_bulk_string,
}
use redis_like.Prelude.{
  ℕ, zero, suc, ◌+◌, ◌-◌, ◌/◌, ◌%◌, ◌^◌, ltb, if◌then◌else◌, [], ◌∷◌, ◌++◌, length, ℤ, pos, negsuc,
  bytes, ◌≡◌, refl,
}

-- The decimal digits of a number, before those that follow. A number has no more digits than the
-- fuel that it is itself, and one.
unfoldable pub digits_onto : ℕ → ℕ → Bytes → Bytes
digits_onto zero n following = following
digits_onto (suc fuel) n following =
    let here = (48 + n % 10) ∷ following in
    let rest = digits_onto fuel (n / 10) here in if ltb n 10 then here else rest

-- `std::to_string` of an unsigned number.
unfoldable pub to_string : ℕ → Bytes
unfolding digits_onto
to_string n = digits_onto (n + 1) n []

-- The conversion of `int64_t` to `int32_t`.
unfoldable pub to_int32 : ℤ → ℤ
to_int32 (pos n) = let w = n % 2 ^ 32 in if ltb w (2 ^ 31) then pos w else negsuc (2 ^ 32 - 1 - w)
to_int32 (negsuc n) =
    let w = n % 2 ^ 32 in if ltb w (2 ^ 31) then negsuc w else pos (2 ^ 32 - 1 - w)

-- `std::to_string` of an `int32_t`.
unfoldable pub to_string_int : ℤ → Bytes
unfolding to_string
to_string_int (pos n) = to_string n
to_string_int (negsuc n) = 45 ∷ to_string (n + 1)

abbrev pub crlf : Bytes
crlf = 13 ∷ 10 ∷ []

unfoldable pub serialize_simple_string : Bytes → Bytes
serialize_simple_string str = 43 ∷ str ++ crlf

unfoldable pub serialize_error : Bytes → Bytes
serialize_error error_msg = 45 ∷ error_msg ++ crlf

unfoldable pub serialize_integer : ℤ → Bytes
unfolding to_string_int
serialize_integer value = 58 ∷ to_string_int value ++ crlf

unfoldable pub serialize_bulk_string : Bytes → Bytes
unfolding to_string
serialize_bulk_string str = 36 ∷ to_string (length str) ++ crlf ++ str ++ crlf

unfoldable pub serialize_null_bulk_string : Bytes
serialize_null_bulk_string = 36 ∷ 45 ∷ 49 ∷ crlf

unfoldable pub count_responses : Responses → ℕ
count_responses nil = 0
count_responses (cons r rs) = 1 + count_responses rs

unfoldable mutual
  unfolding count_responses to_string to_int32 serialize_simple_string serialize_error
      serialize_integer serialize_bulk_string serialize_null_bulk_string

  pub serialize : Response → Bytes
  serialize (simple_string s) = serialize_simple_string s
  serialize (error s) = serialize_error s
  serialize (integer n) = serialize_integer (to_int32 n)
  serialize (bulk_string s) = serialize_bulk_string s
  serialize (array _ rs) = 42 ∷ to_string (count_responses rs) ++ crlf ++ serialize_all rs
  serialize null_bulk_string = serialize_null_bulk_string

  -- The loop over the elements of an array.
  pub serialize_all : Responses → Bytes
  serialize_all nil = []
  serialize_all (cons r rs) = serialize r ++ serialize_all rs

serialize_example : serialize (integer (negsuc 119)) ≡ bytes ":-120" ++ crlf
unfolding serialize to_int32 serialize_integer to_string_int to_string digits_onto bytes
serialize_example = refl
