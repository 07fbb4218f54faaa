-- ===== src/Protocol/Response.antt =====
-- server/src/protocol/serializer.h: the responses, one constructor for each `ResponseType` with the
-- fields that it uses. `is_null` of an array is read by the client only.
use redis_like.Protocol.Parser.{Bytes}
use redis_like.Prelude.{Bool, ℤ}

mutual
  pub data Response : Type 0 where
    simple_string : Bytes → Response
    error : Bytes → Response
    integer : ℤ → Response
    bulk_string : Bytes → Response
    array : Bool → Responses → Response
    null_bulk_string : Response

  pub data Responses : Type 0 where
    nil : Responses
    cons : Response → Responses → Responses
