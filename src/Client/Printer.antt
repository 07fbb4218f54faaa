-- ===== src/Client/Printer.antt =====
-- src/client/response_printer.h: a response as the text that the client prints.
use redis_like.Client.Deserializer.{parse_data}
use redis_like.Protocol.Response.{
  Response, Responses, nil, cons, simple_string, error, integer, bulk_string, array,
  null_bulk_string,
}
use redis_like.Protocol.Serializer.{to_string, to_string_int, count_responses}
use redis_like.Store.Objects.{Bytes}
use redis_like.Prelude.{
  ℕ, ◌+◌, ◌==◌, if◌then◌else◌, true, false, [], ◌∷◌, ◌++◌, Run, ok, throw, undefined, bytes,
  replicate,
}

-- `std::endl`
abbrev pub endl : Bytes
endl = 10 ∷ []

unfoldable mutual
  unfolding to_string to_string_int count_responses bytes

  -- `ResponsePrinter::print`
  pub print : Response → ℕ → Bytes
  print (simple_string s) indent = replicate indent 32 ++ bytes "Simple String: " ++ s ++ endl
  print (error s) indent = replicate indent 32 ++ bytes "Error: " ++ s ++ endl
  print (integer n) indent = replicate indent 32 ++ bytes "Integer: " ++ to_string_int n ++ endl
  print (bulk_string s) indent =
      replicate indent 32 ++ bytes "Bulk String: \"" ++ s ++ bytes "\"" ++ endl
  print (array true rs) indent = replicate indent 32 ++ bytes "Array: NULL" ++ endl
  print (array false rs) indent =
      replicate indent 32
      ++ bytes "Array ["
      ++ to_string (count_responses rs)
      ++ bytes " elements]:"
      ++ endl
      ++ print_all rs (indent + 2)
  print null_bulk_string indent = replicate indent 32 ++ bytes "Null Bulk String" ++ endl

  -- Its loop over the elements of an array.
  pub print_all : Responses → ℕ → Bytes
  print_all nil indent = []
  print_all (cons r rs) indent = print r indent ++ print_all rs indent

-- The loop of `print_raw_and_parsed` over the raw data.
unfoldable pub print_raw : Bytes → Bytes
unfolding bytes
print_raw [] = []
print_raw (c ∷ raw) =
    let rest = print_raw raw in
    if c == 13 then bytes "\\r" ++ rest else if c == 10 then bytes "\\n" ++ rest else c ∷ rest

-- The warning of `Deserializer::parse` where data is left.
abbrev pub print_extra : Bytes → Bytes
print_extra [] = []
print_extra (c ∷ extra) =
    bytes "Warning: Extra data remaining after parsing: " ++ (c ∷ extra) ++ endl

-- The `try` of `print_raw_and_parsed`: an error of the parser is printed.
abbrev pub print_parsed : Run (Response × Bytes) → Run Bytes
print_parsed (ok (response, extra)) =
    ok (print_extra extra ++ bytes "Parsed response:" ++ endl ++ print response 2)
print_parsed (throw what) = ok (bytes "Parse error: " ++ what ++ endl)
print_parsed undefined = undefined

unfoldable pub print_raw_and_parsed : Bytes → Run Bytes
unfolding print_raw print parse_data
print_raw_and_parsed raw_data = elim (print_parsed (parse_data raw_data)) [
  | ok text ↦ ok (
      bytes "Raw data: "
      ++ print_raw raw_data
      ++ endl
      ++ text
      ++ bytes "------------------------"
      ++ endl)
  | throw what ↦ throw what
  | undefined ↦ undefined
]
