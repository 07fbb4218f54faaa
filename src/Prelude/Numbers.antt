-- ===== src/Prelude/Numbers.antt =====
-- `std::stoi`, as server/src/command/command_dispatcher.cpp uses it for the ranks of `ZRANGE`, and
-- `std::stoll`, as client/deserializer.cpp does: white space, a sign and digits in base 10; what
-- follows the digits is not read.
use redis_like.Prelude.{
  ℕ, zero, suc, ◌+◌, ◌-◌, ◌*◌, ◌^◌, ◌==◌, ltb, leb, if◌then◌else◌, Bool, true, false, ◌&&◌, ◌||◌,
  Option, none, some, List, [], ◌∷◌, ◌≡◌, refl, Run, ok, throw, ℤ, pos, negsuc, bytes,
}

abbrev pub is_space : ℕ → Bool
is_space c = (c == 32) || (leb 9 c && leb c 13)

abbrev pub is_digit : ℕ → Bool
is_digit c = leb 48 c && leb c 57

unfoldable pub skip_spaces : List ℕ → List ℕ
skip_spaces [] = []
skip_spaces (c ∷ s) = let rest = skip_spaces s in if is_space c then rest else c ∷ s

-- The number that the digits at the front spell, after those that spell `n`; `none` without digits.
unfoldable pub digits_from : Option ℕ → List ℕ → Option ℕ
digits_from n [] = n
digits_from n (c ∷ s) =
    let rest = digits_from (some (elim n [ none ↦ c - 48 | some m ↦ m * 10 + (c - 48) ])) s in
    if is_digit c then rest else n

-- The sign, `true` for a minus, and what follows it.
unfoldable pub sign_of : List ℕ → Bool × List ℕ
sign_of [] = (false, [])
sign_of (c ∷ s) = if c == 45 then (true, s) else if c == 43 then (false, s) else (false, c ∷ s)

abbrev pub minus : ℕ → ℤ
minus zero = pos 0
minus (suc n) = negsuc n

-- Without digits the call throws `std::invalid_argument`, out of the range of the type, which ends
-- before `limit`, `std::out_of_range`; the text of either is the function's name.
unfoldable pub stox : ℕ → List ℕ → List ℕ → Run ℤ
unfolding skip_spaces sign_of digits_from
stox limit name s =
    let (negative, t) = sign_of (skip_spaces s) in
    elim (digits_from none t) [
      | none ↦ throw name
      | some n ↦ elim negative [
        | false ↦ if ltb n limit then ok (pos n) else throw name
        | true ↦ if leb n limit then ok (minus n) else throw name
      ]
    ]

-- To an `int`.
unfoldable pub stoi : List ℕ → Run ℤ
unfolding stox
stoi s = stox (2 ^ 31) (bytes "stoi") s

-- To a `long long`.
unfoldable pub stoll : List ℕ → Run ℤ
unfolding stox
stoll s = stox (2 ^ 63) (bytes "stoll") s

stoi_example : stoi (bytes " -12x") ≡ ok (negsuc 11)
unfolding stoi stox skip_spaces sign_of digits_from bytes
stoi_example = refl

stoi-out_of_range : stoi (bytes "2147483648") ≡ throw (bytes "stoi")
unfolding stoi stox skip_spaces sign_of digits_from bytes
stoi-out_of_range = refl

stoi-invalid : stoi (bytes "-") ≡ throw (bytes "stoi")
unfolding stoi stox skip_spaces sign_of digits_from bytes
stoi-invalid = refl
