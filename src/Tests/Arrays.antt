-- ===== src/Tests/Arrays.antt =====
-- Concrete arrays for server/src/protocol/serializer.cpp.
use redis_like.Protocol.Arrays.{
  array_result_strings, array_result_integers, strings_of, integers_of, array_result-serialize,
}
use redis_like.Protocol.Parser.{Bytes}
use redis_like.Protocol.Response.{array}
use redis_like.Protocol.Serializer.{to_int32, serialize}
use redis_like.Prelude.{false, List, [], ◌∷◌, ◌≡◌, refl, ℤ, pos, negsuc, All}

abbrev two_strings : List Bytes
two_strings = (97 ∷ []) ∷ [] ∷ []

abbrev two_integers : List ℤ
two_integers = pos 7 ∷ negsuc 2147483647 ∷ []

two_integers_fit : All (λ n. to_int32 n ≡ n) two_integers
unfolding to_int32
two_integers_fit = (refl, (refl, tt))

array_result-serialize_example :
    (array_result_strings two_strings ≡ serialize (array false (strings_of two_strings)))
    × (array_result_integers two_integers ≡ serialize (array false (integers_of two_integers)))
array_result-serialize_example =
    array_result-serialize two_strings two_integers false two_integers_fit
