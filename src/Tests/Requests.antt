-- ===== src/Tests/Requests.antt =====
-- Concrete requests for server/src/protocol/parser.cpp.
use redis_like.Protocol.Frames.{encode_req, Fits, parser_req-encode_req}
use redis_like.Protocol.Parser.{Bytes, k_max_args, parser_req}
use redis_like.Protocol.Sound.{parser_req_sound}
use redis_like.Protocol.Words.{of_bytes}
use redis_like.Prelude.{◌≤◌, ◌<◌, some, none, List, [], ◌∷◌, ◌≡◌, refl, arith, length, All}

-- `GET a`
abbrev pub get_a : List Bytes
get_a = (71 ∷ 69 ∷ 84 ∷ []) ∷ (97 ∷ []) ∷ []

-- Its bytes.
abbrev pub get_a_bytes : Bytes
get_a_bytes = 2 ∷ 0 ∷ 0 ∷ 0 ∷ 3 ∷ 0 ∷ 0 ∷ 0 ∷ 71 ∷ 69 ∷ 84 ∷ 1 ∷ 0 ∷ 0 ∷ 0 ∷ 97 ∷ []

parser_req-truncated : parser_req (2 ∷ 0 ∷ 0 ∷ 0 ∷ 3 ∷ 0 ∷ 0 ∷ 0 ∷ 71 ∷ []) ≡ none
unfolding parser_req of_bytes
parser_req-truncated = refl

parser_req-trailing : parser_req (0 ∷ 0 ∷ 0 ∷ 0 ∷ 1 ∷ []) ≡ none
unfolding parser_req of_bytes
parser_req-trailing = refl

pub get_a_parsed : parser_req get_a_bytes ≡ some get_a
unfolding parser_req of_bytes
get_a_parsed = refl

get_a_bytes-IsBytes : All (λ b. b < 256) get_a_bytes
get_a_bytes-IsBytes = ground arith

parser_req_sound_example :
    (encode_req get_a ≡ get_a_bytes) × (length get_a ≤ k_max_args) × All Fits get_a
parser_req_sound_example = parser_req_sound get_a_bytes get_a get_a_bytes-IsBytes get_a_parsed

parser_req-encode_req_example : parser_req (encode_req get_a) ≡ some get_a
parser_req-encode_req_example =
    parser_req-encode_req get_a (omega arith) (omega arith, (omega arith, tt))
