-- ===== src/Protocol/Frames.antt =====
-- The request format of server/src/protocol/parser.h, written from its diagram, and that the parser
-- reads exactly the byte strings of that format.
use redis_like.Protocol.Words.{
  to_bytes, length-to_bytes, take-to_bytes, drop-to_bytes, of_bytes-to_bytes,
}
use redis_like.Protocol.Parser.{k_max_args, Bytes, parser_len, parser_str, parser_strs, parser_req}
use redis_like.Prelude.{
  ℕ, ◌^◌, ◌≤◌, ◌<◌, ltb, le→ltb, false, some, List, [], ◌∷◌, ◌++◌, ◌≡◌, refl, ap, arith, length,
  length-append, take, drop, All, append_assoc, append-nil,
}

-- A string with its length in front.
abbrev pub encode_str : Bytes → Bytes
encode_str s = to_bytes (length s) ++ s

abbrev pub encode_strs : List Bytes → Bytes
encode_strs [] = []
encode_strs (s ∷ strs) = encode_str s ++ encode_strs strs

-- nstr | len | str1 | len | str2 | ... | len | strn
abbrev pub encode_req : List Bytes → Bytes
encode_req args = to_bytes (length args) ++ encode_strs args

-- Each length fits a `uint32_t`.
abbrev pub Fits : Bytes → Type 0
Fits s = length s < 2 ^ 32

pub take-length-append : (s rest : Bytes) → take (length s) (s ++ rest) ≡ s
take-length-append [] rest = refl
take-length-append (b ∷ s) rest = ap (λ w. b ∷ w) (take-length-append s rest)

pub drop-length-append : (s rest : Bytes) → drop (length s) (s ++ rest) ≡ rest
drop-length-append [] rest = refl
drop-length-append (b ∷ s) rest = drop-length-append s rest

parser_len-to_bytes :
    (n : ℕ) (rest : Bytes) → n < 2 ^ 32 → parser_len (to_bytes n ++ rest) ≡ some (n, rest)
unfolding parser_len
parser_len-to_bytes n rest h =
    let l = length-append (to_bytes n) rest in
    let off : ltb (length (to_bytes n ++ rest)) 4 ≡ false =
      le→ltb _ _ (omega (arith, length-to_bytes n)) in
    let whole = of_bytes-to_bytes n [] h in
    let nil = append-nil (to_bytes n) in
    rw (off, take-to_bytes n rest, drop-to_bytes n rest, ← nil, whole) refl

parser_str-append : (s rest : Bytes) → parser_str (s ++ rest) (length s) ≡ some (s, rest)
unfolding parser_str
parser_str-append s rest =
    let off : ltb (length (s ++ rest)) (length s) ≡ false =
      le→ltb _ _ (omega (arith, length-append s rest)) in
    rw (off, take-length-append s rest, drop-length-append s rest) refl

parser_strs-encode :
    (args : List Bytes) (rest : Bytes)
    → All Fits args
    → parser_strs (length args) (encode_strs args ++ rest) ≡ some (args, rest)
unfolding parser_strs
parser_strs-encode [] rest fits = refl
parser_strs-encode (s ∷ args) rest (fit, fits) =
    let shape : encode_strs (s ∷ args) ++ rest
        ≡ to_bytes (length s) ++ (s ++ (encode_strs args ++ rest)) =
      simp append_assoc in
    rw
      (
        shape,
        parser_len-to_bytes (length s) (s ++ (encode_strs args ++ rest)) fit,
        parser_str-append s (encode_strs args ++ rest),
        parser_strs-encode args rest fits,
      )
      refl

-- Every request in the format, of at most 32 strings, is parsed into its strings.
pub parser_req-encode_req :
    (args : List Bytes)
    → length args ≤ k_max_args
    → All Fits args
    → parser_req (encode_req args) ≡ some args
unfolding parser_req
parser_req-encode_req args few fits =
    let off : ltb k_max_args (length args) ≡ false = le→ltb _ _ few in
    let strs = parser_strs-encode args [] fits in
    let nil = append-nil (encode_strs args) in
    rw (parser_len-to_bytes (length args) (encode_strs args) (omega arith), off, ← nil, strs) refl
