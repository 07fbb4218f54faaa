-- ===== src/Network/Writing.antt =====
-- The calls of `handle_write` of server/src/network/connection.cpp that send an answer.
use redis_like.Network.Connection.{Conntion, buffer_consume}
use redis_like.Network.Events.{
  WriteResult, took, write_delayed, write_failed, handle_write, after_write,
}
use redis_like.Network.Serving.{length-drop}
use redis_like.Protocol.Parser.{Bytes}
use redis_like.Prelude.{
  ℕ, zero, suc, ◌%◌, ◌^◌, ◌≤◌, ◌<◌, ◌==◌, true, false, List, [], ◌∷◌, ◌++◌, ◌≡◌, refl, ap, ◌∙◌, inl,
  inr, arith, length, take, drop, append_assoc, pos, ltb_ℤ, Bool-cases,
}

-- The bytes that a call of `write` took.
abbrev pub taken : WriteResult → Bytes → Bytes
taken (took rv) buffer = take rv buffer
taken write_delayed buffer = []
taken write_failed buffer = []

-- `write` takes no more than it is given.
abbrev pub IsPossible : WriteResult → Bytes → Type 0
IsPossible (took rv) buffer = rv ≤ length buffer
IsPossible write_delayed buffer = Unit
IsPossible write_failed buffer = Unit

-- The calls of `handle_write`, in order.
abbrev pub flush : List WriteResult → Conntion → Conntion
flush [] conn = conn
flush (result ∷ results) conn = flush results (handle_write result conn)

-- All that they took, where each may.
abbrev pub sent : List WriteResult → Conntion → Bytes
sent [] conn = []
sent (result ∷ results) conn =
    taken result conn.write_buffer ++ sent results (handle_write result conn)

abbrev pub ArePossible : List WriteResult → Conntion → Type 0
ArePossible [] conn = Unit
ArePossible (result ∷ results) conn =
    IsPossible result conn.write_buffer × ArePossible results (handle_write result conn)

-- The connection waits to write as long as there are bytes to write, and to read otherwise.
abbrev pub IsFlagged : Conntion → Type 0
IsFlagged conn =
    (length conn.write_buffer ≡ 0 → (conn.is_read ≡ true) × (conn.is_write ≡ false))
    × (1 ≤ length conn.write_buffer → (conn.is_read ≡ false) × (conn.is_write ≡ true))

take-drop : (n : ℕ) (xs : Bytes) → take n xs ++ drop n xs ≡ xs
take-drop zero xs = refl
take-drop (suc n) [] = refl
take-drop (suc n) (x ∷ xs) = ap (λ w. x ∷ w) (take-drop n xs)

-- There is nothing to take from an empty buffer.
taken_nothing :
    (result : WriteResult) (buffer : Bytes)
    → IsPossible result buffer
    → length buffer ≡ 0
    → taken result buffer ≡ []
taken_nothing (took zero) buffer can e = refl
taken_nothing (took (suc rv)) buffer can e = absurd (omega arith)
taken_nothing write_delayed buffer can e = refl
taken_nothing write_failed buffer can e = refl

-- What a call leaves.
record Sent (conn : Conntion) (gone : Bytes) (r : Conntion) : Type 0 where
  same_fd : r.fd ≡ conn.fd
  same_read : r.read_buffer ≡ conn.read_buffer
  joined : gone ++ r.write_buffer ≡ conn.write_buffer
  shorter : length r.write_buffer ≤ length conn.write_buffer
  flagged : IsFlagged r

module _ (conn : Conntion) (small : length conn.write_buffer < 2 ^ 32)
    (flags : IsFlagged conn) where
  after_write-Sent :
      (rv : ℕ)
      → rv ≤ length conn.write_buffer
      → 1 ≤ length conn.write_buffer
      → Sent conn (take rv conn.write_buffer) (after_write conn rv)
  unfolding after_write buffer_consume
  after_write-Sent rv le more =
      let count : rv % 2 ^ 32 ≡ rv = omega arith in
      let left = length-drop rv conn.write_buffer in
      elim (Bool-cases (length (drop rv conn.write_buffer) == 0)) [
        | inl done ↦
            rw (after_write, count, done)
              (record {
                same_fd = refl;
                same_read = refl;
                joined = take-drop rv conn.write_buffer;
                shorter = omega arith;
                flagged = (λ h. (refl, refl), λ h. absurd (ground arith));
              })
        | inr some_left ↦
            rw (after_write, count, some_left)
              (record {
                same_fd = refl;
                same_read = refl;
                joined = take-drop rv conn.write_buffer;
                shorter = omega arith;
                flagged = (λ h. absurd (ground arith), λ h. flags.1 more);
              })
      ]

  unchanged : Sent conn [] conn
  unchanged = record {
    same_fd = refl;
    same_read = refl;
    joined = refl;
    shorter = omega arith;
    flagged = flags;
  }

  handle_write-Sent :
      (result : WriteResult)
      → ltb_ℤ conn.fd (pos 0) ≡ false
      → IsPossible result conn.write_buffer
      → Sent conn (taken result conn.write_buffer) (handle_write result conn)
  unfolding handle_write
  handle_write-Sent result fd can = elim (Bool-cases (length conn.write_buffer == 0)) [
    | inl done ↦
        rw (handle_write, fd, done, taken_nothing result conn.write_buffer can (ground arith))
          unchanged
    | inr more ↦ from result can (ground arith) more
  ]
    where
      from :
          (result : WriteResult)
          → IsPossible result conn.write_buffer
          → 1 ≤ length conn.write_buffer
          → (length conn.write_buffer == 0) ≡ false
          → Sent conn (taken result conn.write_buffer) (handle_write result conn)
      from (took rv) can le more = rw (handle_write, fd, more) (after_write-Sent rv can le)
      from write_delayed can le more = rw (handle_write, fd, more) unchanged
      from write_failed can le more =
          rw (handle_write, fd, more)
            (record {
              same_fd = refl;
              same_read = refl;
              joined = refl;
              shorter = omega arith;
              flagged = flags;
            })

-- An open connection with less than 4 GiB to write, which waits to write where there are bytes and
-- to read otherwise, and calls of `handle_write` of which `write` takes no more than it is given, or
-- is delayed, or fails: what the calls took, in order, and what is left are the bytes that were to
-- be written; the read buffer is as it was, and the connection waits to write where bytes are left
-- and to read otherwise.
pub flush_joined :
    (results : List WriteResult) (conn : Conntion)
    → ltb_ℤ conn.fd (pos 0) ≡ false
    → length conn.write_buffer < 2 ^ 32
    → IsFlagged conn
    → ArePossible results conn
    → (sent results conn ++ (flush results conn).write_buffer ≡ conn.write_buffer)
      × ((flush results conn).read_buffer ≡ conn.read_buffer)
      × IsFlagged (flush results conn)
flush_joined [] conn fd small flags can = (refl, refl, flags)
flush_joined (result ∷ results) conn fd small flags (can, rest) =
    let step = handle_write-Sent conn small flags result fd can in
    let conn' = handle_write result conn in
    let gone = taken result conn.write_buffer in
    let fd' = ap (λ z. ltb_ℤ z (pos 0)) step.same_fd ∙ fd in
    let (all, same, flags') =
      flush_joined results conn' fd' (omega (arith, step.shorter)) step.flagged rest in
    (
      append_assoc gone (sent results conn') (flush results conn').write_buffer
          ∙ ap (λ w. gone ++ w) all
          ∙ step.joined,
      same ∙ step.same_read,
      flags',
    )
