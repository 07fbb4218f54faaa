-- ===== src/Tests/Clients.antt =====
-- The client of src/client at concrete inputs.
use redis_like.Client.Deserializer.{
  parse_data, parse, parse_elements, parse_one, parse_type, parse_array, array_of, read_line,
  find_crlf, parse_bulk_string, bulk_of, skip_crlf, parse_integer,
}
use redis_like.Client.Ends.{Settled, parse_data-Settled}
use redis_like.Client.Exchange.{exchange}
use redis_like.Client.Lines.{IsLine}
use redis_like.Client.Printer.{print_raw_and_parsed, print, print_raw}
use redis_like.Client.Program.{
  request, read_input, split, send_req, add_sizes, fill, write_all, complete, read_res,
}
use redis_like.Client.RoundTrip.{received, parse_data-serialize}
use redis_like.Client.Wire.{joined, AreChunks}
use redis_like.Dispatch.Execute.{
  execute_command, dispatch, register_commands, find_command, regiser_command, validate_args,
}
use redis_like.Dispatch.Handlers.{handle_set}
use redis_like.Network.Connection.{Conntion, try_one_request}
use redis_like.Prelude.Numbers.{stoll}
use redis_like.Protocol.Response.{Response, simple_string, integer, bulk_string, array, nil, cons}
use redis_like.Protocol.Serializer.{
  serialize, serialize_simple_string, serialize_integer, serialize_bulk_string, to_int32, to_string,
  to_string_int, count_responses,
}
use redis_like.Protocol.Words.{to_bytes}
use redis_like.Protocol.Frames.{encode_str, encode_req}
use redis_like.Store.Objects.{Bytes, same_bytes}
use redis_like.Tests.Databases.{key_a, db_start, db_first, db_first-set}
use redis_like.Tests.Sets.{digit}
use redis_like.Prelude.{
  ◌≡◌, refl, ok, List, [], ◌∷◌, ◌++◌, bytes, true, false, pos, negsuc, Returns, length, arith,
}

-- "*2\r\n$2\r\nhi\r\n:-7\r\n"
parse_data_two :
    parse_data (
      bytes "*2"
      ++ 13 ∷ 10 ∷ bytes "$2"
      ++ 13 ∷ 10 ∷ bytes "hi"
      ++ 13 ∷ 10 ∷ bytes ":-7"
      ++ 13 ∷ 10 ∷ [])
    ≡ ok (array false (cons (bulk_string (bytes "hi")) (cons (integer (negsuc 6)) nil)), [])
unfolding parse_data parse parse_elements parse_one parse_type parse_array array_of read_line
    find_crlf stoll parse_bulk_string bulk_of skip_crlf parse_integer same_bytes bytes
parse_data_two = refl

-- What the user reads of the answer to a request that failed.
print_raw_and_parsed_error :
    print_raw_and_parsed (bytes ":x" ++ 13 ∷ 10 ∷ [])
    ≡ ok (
        bytes "Raw data: :x\\r\\n"
        ++ 10 ∷ bytes "Parse error: Invalid integer format: x"
        ++ 10 ∷ bytes "------------------------"
        ++ 10 ∷ [])
unfolding print_raw_and_parsed print_raw print parse_data parse parse_elements parse_one parse_type
    read_line find_crlf stoll parse_integer bytes
print_raw_and_parsed_error = refl

read_input_words : read_input (bytes " SET a  1") ≡ request (bytes "SET" ∷ key_a ∷ bytes "1" ∷ [])
unfolding read_input split same_bytes bytes
read_input_words = refl

abbrev two : Response
two = array false (cons (bulk_string (13 ∷ 10 ∷ [])) (cons (integer (negsuc 6)) nil))

parse_data-serialize_example : parse_data (serialize two ++ 43 ∷ []) ≡ ok (received two, 43 ∷ [])
unfolding serialize serialize_bulk_string serialize_integer to_int32 to_string to_string_int
    count_responses
parse_data-serialize_example = parse_data-serialize two (43 ∷ []) (tt, (tt, tt)) (omega arith)

parse_data-Settled_example : Settled (parse_data (42 ∷ 57 ∷ 13 ∷ 10 ∷ []))
parse_data-Settled_example = parse_data-Settled (42 ∷ 57 ∷ 13 ∷ 10 ∷ [])

abbrev set_a : List Bytes
set_a = bytes "SET" ∷ key_a ∷ (49 ∷ []) ∷ []

set_a-run :
    execute_command (register_commands digit) set_a db_start
    ≡ ok (simple_string (bytes "OK"), db_first)
unfolding execute_command dispatch register_commands find_command regiser_command validate_args
    handle_set bytes same_bytes
set_a-run = rw db_first-set refl

abbrev conn_sent : Conntion
conn_sent = record {
  fd = pos 5;
  is_read = true;
  is_write = false;
  is_close = false;
  read_buffer = encode_str (encode_req set_a);
  write_buffer = [];
}

set_a-sent : send_req (21 ∷ 4 ∷ []) set_a ≡ complete conn_sent.read_buffer
unfolding send_req add_sizes fill write_all to_bytes bytes
set_a-sent = refl

ok-IsLine : IsLine (bytes "OK")
unfolding find_crlf bytes
ok-IsLine = refl

exchange_example :
    Returns (try_one_request (execute_command (register_commands digit)) conn_sent db_start) λ r.
      (r.0 ≡ true)
      × (r.2 ≡ db_first)
      × (r.1.read_buffer ≡ [])
      × ((header body rest : List Bytes)
          → AreChunks header
          → AreChunks body
          → length (joined header) ≡ 4
          → joined header ++ joined body ≡ r.1.write_buffer
          → (text : Bytes) × (read_res (header ++ (body ++ rest)) ≡ complete (text, rest))
            × (parse_data text ≡ ok (simple_string (bytes "OK"), [])))
unfolding bytes serialize serialize_simple_string to_bytes
exchange_example =
    exchange (execute_command (register_commands digit)) set_a (simple_string (bytes "OK")) db_start
      db_first conn_sent (21 ∷ 4 ∷ []) (omega arith) (omega arith) set_a-run ok-IsLine (omega arith)
      refl refl set_a-sent
