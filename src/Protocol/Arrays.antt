-- ===== src/Protocol/Arrays.antt =====
-- The functions of server/src/protocol/serializer.cpp for the results of commands, beside
-- `serialize`: two overloads of `serialize_array`, and the names for what they send.
use redis_like.Protocol.Parser.{Bytes}
use redis_like.Protocol.Response.{Responses, nil, cons, integer, bulk_string, array}
use redis_like.Protocol.Serializer.{
  to_string, to_int32, crlf, serialize_simple_string, serialize_error, serialize_integer,
  serialize_bulk_string, serialize_null_bulk_string, count_responses, serialize, serialize_all,
}
use redis_like.Prelude.{
  Bool, ap, sym, ◌≡◌, refl, ◌∙◌, List, [], ◌∷◌, ◌++◌, append_assoc, length, ℤ, bytes, All, arith,
}

unfoldable pub serialize_strings : List Bytes → Bytes
unfolding to_string
serialize_strings [] = []
serialize_strings (item ∷ elements) =
    36 ∷ to_string (length item) ++ crlf ++ item ++ crlf ++ serialize_strings elements

unfoldable pub serialize_array_strings : List Bytes → Bytes
unfolding serialize_strings to_string
serialize_array_strings elements =
    42 ∷ to_string (length elements) ++ crlf ++ serialize_strings elements

unfoldable pub serialize_integers : List ℤ → Bytes
unfolding serialize_integer
serialize_integers [] = []
serialize_integers (item ∷ elements) = serialize_integer item ++ serialize_integers elements

unfoldable pub serialize_array_integers : List ℤ → Bytes
unfolding serialize_integers to_string
serialize_array_integers elements =
    42 ∷ to_string (length elements) ++ crlf ++ serialize_integers elements

unfoldable pub ok_result : Bytes
unfolding serialize_simple_string bytes
ok_result = serialize_simple_string (bytes "ok")

unfoldable pub nil_result : Bytes
unfolding serialize_null_bulk_string
nil_result = serialize_null_bulk_string

unfoldable pub integer_result : ℤ → Bytes
unfolding serialize_integer
integer_result value = serialize_integer value

unfoldable pub string_result : Bytes → Bytes
unfolding serialize_bulk_string
string_result str = serialize_bulk_string str

unfoldable pub error_result : Bytes → Bytes
unfolding serialize_error
error_result msg = serialize_error msg

unfoldable pub array_result_strings : List Bytes → Bytes
unfolding serialize_array_strings
array_result_strings items = serialize_array_strings items

unfoldable pub array_result_integers : List ℤ → Bytes
unfolding serialize_array_integers
array_result_integers items = serialize_array_integers items

-- The elements as responses.
abbrev pub strings_of : List Bytes → Responses
strings_of [] = nil
strings_of (item ∷ items) = cons (bulk_string item) (strings_of items)

abbrev pub integers_of : List ℤ → Responses
integers_of [] = nil
integers_of (item ∷ items) = cons (integer item) (integers_of items)

count_responses-strings_of :
    (items : List Bytes) → count_responses (strings_of items) ≡ length items
unfolding count_responses
count_responses-strings_of [] = refl
count_responses-strings_of (item ∷ items) = omega (arith, count_responses-strings_of items)

count_responses-integers_of : (items : List ℤ) → count_responses (integers_of items) ≡ length items
unfolding count_responses
count_responses-integers_of [] = refl
count_responses-integers_of (item ∷ items) = omega (arith, count_responses-integers_of items)

serialize_strings-strings_of :
    (items : List Bytes) → serialize_strings items ≡ serialize_all (strings_of items)
unfolding serialize_strings serialize_all serialize_bulk_string
serialize_strings-strings_of [] = refl
serialize_strings-strings_of (item ∷ items) =
    rw (serialize_strings-strings_of items) (simp append_assoc)

serialize_integers-integers_of :
    (items : List ℤ)
    → All (λ n. to_int32 n ≡ n) items
    → serialize_integers items ≡ serialize_all (integers_of items)
unfolding serialize_integers serialize_all
serialize_integers-integers_of [] w = refl
serialize_integers-integers_of (item ∷ items) (e, w) =
    ap (λ s. serialize_integer item ++ s) (serialize_integers-integers_of items w)
    ∙ ap (λ n. serialize_integer n ++ serialize_all (integers_of items)) (sym e)

-- `array_result` of strings sends what `serialize` makes of the array of them as bulk strings, and of
-- integers that fit 32 bits what it makes of the array of them.
pub array_result-serialize :
    (strings : List Bytes) (integers : List ℤ) (is_null : Bool)
    → All (λ n. to_int32 n ≡ n) integers
    → (array_result_strings strings ≡ serialize (array is_null (strings_of strings)))
      × (array_result_integers integers ≡ serialize (array is_null (integers_of integers)))
unfolding array_result_strings array_result_integers serialize
array_result-serialize strings integers is_null fit = (
  ap (λ n. 42 ∷ to_string n ++ crlf ++ serialize_strings strings)
        (sym (count_responses-strings_of strings))
      ∙ ap (λ s. 42 ∷ to_string (count_responses (strings_of strings)) ++ crlf ++ s)
          (serialize_strings-strings_of strings),
  ap (λ n. 42 ∷ to_string n ++ crlf ++ serialize_integers integers)
        (sym (count_responses-integers_of integers))
      ∙ ap (λ s. 42 ∷ to_string (count_responses (integers_of integers)) ++ crlf ++ s)
          (serialize_integers-integers_of integers fit),
)
