-- ===== src/Client/Deserializer.antt =====
-- src/client/deserializer.h and deserializer.cpp: a response read from its bytes.
use redis_like.Protocol.Response.{
  Response, Responses, nil, cons, simple_string, error, integer, bulk_string, array,
  null_bulk_string,
}
use redis_like.Prelude.Numbers.{stoll}
use redis_like.Store.Objects.{Bytes, same_bytes}
use redis_like.Prelude.{
  ℕ, zero, suc, ◌+◌, ◌-◌, ◌%◌, ◌^◌, ◌==◌, ltb, leb, if◌then◌else◌, Bool, true, false, ◌&&◌, ◌||◌,
  Option, none, some, [], ◌∷◌, ◌++◌, length, take, drop, get_elem?, Run, ok, throw, undefined,
  ◌>>=◌, pos, negsuc, bytes,
}

-- `Deserializer`. The functions below take `buffer_` and `pos_` apart, and return the new `pos_`.
pub record Deserializer : Type 0 where
  pub buffer : Bytes
  pub pos_ : ℕ

abbrev pub reset : Deserializer → Deserializer
reset d = record { buffer = []; pos_ = 0 }

abbrev pub set_data : Deserializer → Bytes → Deserializer
set_data d text = record { buffer = text; pos_ = 0 }

abbrev pub append_data : Deserializer → Bytes → Deserializer
append_data d text = record d { buffer = d.buffer ++ text }

-- The byte at an index is the one that is asked for.
abbrev pub byte_is : Bytes → ℕ → ℕ → Bool
byte_is buffer at c = elim (get_elem? buffer at) [ none ↦ false | some b ↦ b == c ]

-- `find("\r\n")`: where the first of them starts.
unfoldable pub find_crlf : Bytes → Option ℕ
find_crlf [] = none
find_crlf (b ∷ s) =
    let rest = find_crlf s in
    if (b == 13) && byte_is s 0 10
    then some 0
    else elim rest [ none ↦ none | some at ↦ some (suc at) ]

unfoldable pub read_line : Bytes → ℕ → Run (Bytes × ℕ)
unfolding find_crlf
read_line buffer at =
    if leb (length buffer) at
    then throw (bytes "Unexpected end of data")
    else elim (find_crlf (drop at buffer)) [
      | none ↦ throw (bytes "Incomplete data: missing CRLF")
      | some n ↦ ok (take n (drop at buffer), at + n + 2)
    ]

unfoldable pub skip_crlf : Bytes → ℕ → Run ℕ
skip_crlf buffer at =
    if leb (length buffer) (at + 1)
      || (if byte_is buffer at 13 then false else true)
      || (if byte_is buffer (at + 1) 10 then false else true)
    then throw (bytes "Expected CRLF")
    else ok (at + 2)

abbrev pub has_more_data : Deserializer → Bool
has_more_data d = ltb d.pos_ (length d.buffer)

abbrev pub get_remaining_data : Deserializer → Bytes
get_remaining_data d = if leb (length d.buffer) d.pos_ then [] else drop d.pos_ d.buffer

-- A `catch` that throws with its own text.
abbrev pub rethrow {ℓ} : {A : Type ℓ} → Bytes → Run A → Run A
rethrow what (ok a) = ok a
rethrow what (throw _) = throw what
rethrow what undefined = undefined

-- `pos_ -= length_str.length() + 3`
abbrev pub step_back : ℕ → Bytes → ℕ
step_back at length_str = (at + 2 ^ 64 - (length length_str + 3)) % 2 ^ 64

-- The result of a parse: `none` is `false`, where the data is not complete.
abbrev pub Parsed : Type 0
Parsed = Option Response × ℕ

unfoldable pub parse_simple_string : Bytes → ℕ → Run Parsed
unfolding read_line
parse_simple_string buffer at = do
  (line, at') ← read_line buffer at
  ok (some (simple_string line), at')

unfoldable pub parse_error : Bytes → ℕ → Run Parsed
unfolding read_line
parse_error buffer at = do (line, at') ← read_line buffer at; ok (some (error line), at')

unfoldable pub parse_integer : Bytes → ℕ → Run Parsed
unfolding read_line
parse_integer buffer at = do
  (line, at') ← read_line buffer at
  n ← rethrow (bytes "Invalid integer format: " ++ line) (stoll line)
  ok (some (integer n), at')

-- The `try` of `parse_bulk_string`.
unfoldable pub bulk_of : Bytes → Bytes → ℕ → Run Parsed
unfolding skip_crlf
bulk_of buffer length_str at = do
  n ← stoll length_str
  elim n [
    | negsuc _ ↦ throw (bytes "Invalid bulk string length: " ++ length_str)
    | pos len ↦
        if ltb (length buffer) ((at + len + 2) % 2 ^ 64)
        then ok (none, step_back at length_str)
        else skip_crlf buffer (at + len) >>= λ at'.
            ok (some (bulk_string (take len (drop at buffer))), at')
  ]

unfoldable pub parse_bulk_string : Bytes → ℕ → Run Parsed
unfolding read_line bulk_of
parse_bulk_string buffer at = do
  (length_str, at') ← read_line buffer at
  if same_bytes length_str (bytes "-1")
      then ok (some null_bulk_string, at')
      else rethrow (bytes "Invalid bulk string length: " ++ length_str)
          (bulk_of buffer length_str at')

-- The loop of `parse_array`, for this many elements: `none` where one is not complete.
abbrev pub Elements : Type 0
Elements = ℕ → ℕ → Run (Option Responses × ℕ)

-- The `try` of `parse_array`.
unfoldable pub array_of : Elements → Bytes → ℕ → Run Parsed
array_of elements length_str at = do
  n ← stoll length_str
  elim n [
    | negsuc _ ↦ throw (bytes "Invalid array length: " ++ length_str)
    | pos len ↦ elements len at >>= λ (rs, at'). elim rs [
      | none ↦ ok (none, step_back at length_str)
      | some rs ↦ ok (some (array false rs), at')
    ]
  ]

unfoldable pub parse_array : Elements → Bytes → ℕ → Run Parsed
unfolding read_line array_of
parse_array elements buffer at = do
  (length_str, at') ← read_line buffer at
  if same_bytes length_str (bytes "-1")
      then ok (some (array true nil), at')
      else rethrow (bytes "Invalid array length: " ++ length_str) (array_of elements length_str at')

-- The `switch` of `parse`.
unfoldable pub parse_type : Elements → Bytes → ℕ → ℕ → Run Parsed
unfolding parse_simple_string parse_error parse_integer parse_bulk_string parse_array
parse_type elements buffer type_char at =
    if type_char == 43
    then parse_simple_string buffer at
    else if type_char == 45
    then parse_error buffer at
    else if type_char == 58
    then parse_integer buffer at
    else if type_char == 36
    then parse_bulk_string buffer at
    else if type_char == 42
    then parse_array elements buffer at
    else throw (bytes "Unknown response type: " ++ type_char ∷ [])

-- `parse`, with the loop of `parse_array`. Where it throws, `pos_` is 0, which nothing reads.
unfoldable pub parse_one : Elements → Bytes → ℕ → Run Parsed
unfolding parse_type
parse_one elements buffer at = elim (get_elem? buffer at) [
  | none ↦ ok (none, at)
  | some type_char ↦ parse_type elements buffer type_char (at + 1)
]

unfoldable pub parse_elements : Bytes → ℕ → Elements
unfolding parse_one
parse_elements buffer fuel zero at = ok (some nil, at)
parse_elements buffer zero (suc n) at = undefined
parse_elements buffer (suc fuel) (suc n) at = do
  (r, at') ← parse_one (parse_elements buffer fuel) buffer at
  elim r [
    | none ↦ ok (none, at')
    | some element ↦ parse_elements buffer fuel n at' >>= λ (rs, at''). elim rs [
      | none ↦ ok (none, at'')
      | some rs ↦ ok (some (cons element rs), at'')
    ]
  ]

unfoldable pub parse : Deserializer → Run (Option Response × Deserializer)
unfolding parse_one parse_elements
parse d = do
  (r, at) ← parse_one (parse_elements d.buffer (length d.buffer + 1)) d.buffer d.pos_
  ok (r, record d { pos_ = at })

-- `Deserializer::parse` of a string: the response, and the data behind it, of which it warns.
unfoldable pub parse_data : Bytes → Run (Response × Bytes)
unfolding parse
parse_data text = do
  (r, d) ← parse (set_data (record { buffer = []; pos_ = 0 }) text)
  elim r [
    | none ↦ throw (bytes "Failed to parse RESP data")
    | some response ↦ ok (response, get_remaining_data d)
  ]
