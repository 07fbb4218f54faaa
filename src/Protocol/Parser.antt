-- ===== src/Protocol/Parser.antt =====
-- server/src/protocol/parser.h and parser.cpp. The pointers `cur` and `end` are the bytes between them.
use redis_like.Protocol.Words.{of_bytes}
use redis_like.Prelude.{
  ℕ, zero, suc, ltb, if◌then◌else◌, Option, none, some, List, [], ◌∷◌, length, take, drop,
}

abbrev pub k_max_args : ℕ
k_max_args = 32

abbrev pub Bytes : Type 0
Bytes = List ℕ

infixl 5 ◌>>=◌
abbrev pub ◌>>=◌ {ℓ κ} : {A : Type ℓ} {B : Type κ} → Option A → (A → Option B) → Option B
none >>= f = none
some a >>= f = f a

-- `none` is the result `false`, or -1 of `parser_req`.
unfoldable pub parser_len : Bytes → Option (ℕ × Bytes)
parser_len cur = if ltb (length cur) 4 then none else some (of_bytes (take 4 cur), drop 4 cur)

unfoldable pub parser_str : Bytes → ℕ → Option (Bytes × Bytes)
parser_str cur len = if ltb (length cur) len then none else some (take len cur, drop len cur)

-- The loop of `parser_req`, for the strings left.
unfoldable pub parser_strs : ℕ → Bytes → Option (List Bytes × Bytes)
unfolding parser_len parser_str
parser_strs zero cur = some ([], cur)
parser_strs (suc n) cur = do
  (len, cur₁) ← parser_len cur
  (str, cur₂) ← parser_str cur₁ len
  (strs, cur₃) ← parser_strs n cur₂
  some (str ∷ strs, cur₃)

-- `cur != end`
abbrev pub all_read : List Bytes × Bytes → Option (List Bytes)
all_read (res, []) = some res
all_read (res, _ ∷ _) = none

unfoldable pub parser_req : Bytes → Option (List Bytes)
unfolding parser_len parser_strs
parser_req request = do
  (nstr, cur) ← parser_len request
  if ltb k_max_args nstr then none else parser_strs nstr cur >>= all_read
