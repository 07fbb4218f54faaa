-- ===== src/Protocol/Words.antt =====
-- A `uint32_t` in the four bytes that `memcpy` moves on a little-endian machine.
use redis_like.Prelude.{
  ℕ, ◌+◌, ◌*◌, ◌/◌, ◌%◌, ◌^◌, ◌<◌, List, [], ◌∷◌, ◌++◌, ◌≡◌, refl, arith, length, take, drop,
}

unfoldable pub to_bytes : ℕ → List ℕ
to_bytes n = (n % 256) ∷ (n / 256 % 256) ∷ (n / 65536 % 256) ∷ (n / 16777216 % 256) ∷ []

-- What `memcpy(&len, cur, 4)` leaves in `len`.
unfoldable pub of_bytes : List ℕ → ℕ
of_bytes (a ∷ b ∷ c ∷ d ∷ _) = a + b * 256 + c * 65536 + d * 16777216
of_bytes _ = 0

pub length-to_bytes : (n : ℕ) → length (to_bytes n) ≡ 4
unfolding to_bytes
length-to_bytes n = refl

pub take-to_bytes : (n : ℕ) (rest : List ℕ) → take 4 (to_bytes n ++ rest) ≡ to_bytes n
unfolding to_bytes
take-to_bytes n rest = refl

pub drop-to_bytes : (n : ℕ) (rest : List ℕ) → drop 4 (to_bytes n ++ rest) ≡ rest
unfolding to_bytes
drop-to_bytes n rest = refl

pub of_bytes-to_bytes : (n : ℕ) (rest : List ℕ) → n < 2 ^ 32 → of_bytes (to_bytes n ++ rest) ≡ n
unfolding to_bytes of_bytes
of_bytes-to_bytes n rest h = omega arith
