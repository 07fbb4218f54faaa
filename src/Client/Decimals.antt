-- ===== src/Client/Decimals.antt =====
-- `std::stoll`, as client/deserializer.cpp calls it, on what `std::to_string` writes.
use redis_like.Client.Lines.{IsLine, IsLine-of}
use redis_like.Prelude.Numbers.{
  digits_from, skip_spaces, sign_of, is_space, is_digit, minus, stox, stoll,
}
use redis_like.Protocol.Serializer.{digits_onto, to_int32, to_string, to_string_int}
use redis_like.Store.Objects.{Bytes, same_bytes}
use redis_like.Prelude.{
  ℕ, zero, suc, ◌+◌, ◌*◌, ◌/◌, ◌%◌, ◌^◌, ◌≤◌, ◌<◌, ◌==◌, ltb, leb, true, false, some, none, [], ◌∷◌,
  ◌≡◌, refl, sym, ap, ◌-◌, ◌∙◌, arith, All, ok, Bool-cases, inl, inr, ℤ, pos, negsuc, bytes,
}

-- The digits of a number, read after nothing.
digits_from-digits_onto :
    (fuel n : ℕ) (following : Bytes)
    → n < fuel
    → digits_from none (digits_onto fuel n following) ≡ digits_from (some n) following
unfolding digits_from digits_onto
digits_from-digits_onto zero n following h = absurd (omega arith)
digits_from-digits_onto (suc fuel) n following h =
    let c = 48 + n % 10 in
    let digit : is_digit c ≡ true = ground arith in
    elim (Bool-cases (ltb n 10)) [
      | inl last ↦ let e : 48 + n % 10 - 48 ≡ n = ground arith in rw (last, digit) (rw e refl)
      | inr more ↦
          let e : n / 10 * 10 + (48 + n % 10 - 48) ≡ n = omega arith in
          let before = digits_from-digits_onto fuel (n / 10) (c ∷ following) (ground arith) in
          rw more (before ∙ rw digit (rw e refl))
    ]

-- Every byte is a digit.
All-digits_onto :
    (P : ℕ → Type 0)
    → ((c : ℕ) → 48 ≤ c → c ≤ 57 → P c)
    → (fuel n : ℕ) (following : Bytes) → All P following
    → All P (digits_onto fuel n following)
unfolding digits_onto
All-digits_onto P h zero n following k = k
All-digits_onto P h (suc fuel) n following k =
    let here : P (48 + n % 10) = h (48 + n % 10) (omega arith) (omega arith) in
    elim (Bool-cases (ltb n 10)) [
      | inl last ↦ rw last (here, k)
      | inr more ↦ rw more (All-digits_onto P h fuel (n / 10) ((48 + n % 10) ∷ following) (here, k))
    ]

-- The text starts with a digit.
pub digits_onto-first :
    (fuel n : ℕ) (following : Bytes)
    → n < fuel
    → (c : ℕ) × (s : Bytes) × (digits_onto fuel n following ≡ c ∷ s) × (48 ≤ c) × (c ≤ 57)
unfolding digits_onto
digits_onto-first zero n following h = absurd (omega arith)
digits_onto-first (suc fuel) n following h = elim (Bool-cases (ltb n 10)) [
  | inl last ↦ rw last (48 + n % 10, following, refl, omega arith, omega arith)
  | inr more ↦ rw more (digits_onto-first fuel (n / 10) ((48 + n % 10) ∷ following) (ground arith))
]

pub to_string-IsLine : (n : ℕ) → IsLine (to_string n)
unfolding to_string
to_string-IsLine n =
    IsLine-of (to_string n)
      (All-digits_onto (λ b. (b == 13) ≡ false) (λ c lo hi. ground arith) (n + 1) n [] tt)

pub to_string_int-IsLine : (n : ℤ) → IsLine (to_string_int n)
unfolding to_string to_string_int
to_string_int-IsLine (pos n) = to_string-IsLine n
to_string_int-IsLine (negsuc n) = IsLine-of (45 ∷ to_string (n + 1)) (
  refl,
  All-digits_onto (λ b. (b == 13) ≡ false) (λ c lo hi. ground arith) (n + 1 + 1) (n + 1) [] tt,
)

-- A sign is read where there is one only.
stoll-digits :
    (c : ℕ) (s : Bytes) (n : ℕ)
    → 48 ≤ c
    → c ≤ 57
    → digits_from none (c ∷ s) ≡ some n
    → n < 2 ^ 63
    → stoll (c ∷ s) ≡ ok (pos n)
unfolding stoll stox skip_spaces sign_of
stoll-digits c s n lo hi read h =
    let mark : is_space c ≡ false = ground arith in
    let no_minus : (c == 45) ≡ false = ground arith in
    let no_plus : (c == 43) ≡ false = ground arith in
    let fits : ltb n (2 ^ 63) ≡ true = ground arith in
    let signed : sign_of (skip_spaces (c ∷ s)) ≡ (false, c ∷ s) =
      rw (skip_spaces, mark) (rw (sign_of, no_minus, no_plus) refl) in
    rw (stoll, stox, signed, read) (rw signed (rw fits refl))

pub stoll-to_string : (n : ℕ) → n < 2 ^ 63 → stoll (to_string n) ≡ ok (pos n)
unfolding to_string digits_from
stoll-to_string n h =
    let (c, s, e, lo, hi) = digits_onto-first (n + 1) n [] (omega arith) in
    let read : digits_from none (c ∷ s) ≡ some n =
      ap (digits_from none) (sym e) ∙ digits_from-digits_onto (n + 1) n [] (omega arith) in
    ap stoll e ∙ stoll-digits c s n lo hi read h

-- The range of an `int32_t`.
abbrev pub IsWord : ℤ → Type 0
IsWord (pos n) = n < 2 ^ 31
IsWord (negsuc n) = n < 2 ^ 31

-- A minus in front.
stoll-minus :
    (n : ℕ) (s : Bytes)
    → n < 2 ^ 31
    → digits_from none s ≡ some (n + 1)
    → stoll (45 ∷ s) ≡ ok (negsuc n)
unfolding stoll stox skip_spaces sign_of
stoll-minus n s h read =
    let fits : leb (n + 1) (2 ^ 63) ≡ true = ground arith in
    let is_suc : n + 1 ≡ suc n = omega arith in
    let least : minus (n + 1) ≡ negsuc n = rw is_suc refl in
    rw (stoll, stox, read) (rw (fits, least) refl)

pub stoll-to_string_int : (n : ℤ) → IsWord n → stoll (to_string_int n) ≡ ok n
unfolding to_string to_string_int digits_from
stoll-to_string_int (pos n) h = stoll-to_string n (omega arith)
stoll-to_string_int (negsuc n) h =
    stoll-minus n (to_string (n + 1)) h
      (digits_from-digits_onto (n + 1 + 1) (n + 1) [] (omega arith))

pub to_int32-IsWord : (n : ℤ) → IsWord (to_int32 n)
unfolding to_int32
to_int32-IsWord (pos n) = elim (Bool-cases (ltb (n % 2 ^ 32) (2 ^ 31))) [
  | inl low ↦ rw low (ground arith)
  | inr high ↦ rw high (ground arith)
]
to_int32-IsWord (negsuc n) = elim (Bool-cases (ltb (n % 2 ^ 32) (2 ^ 31))) [
  | inl low ↦ rw low (ground arith)
  | inr high ↦ rw high (ground arith)
]

-- A length is not read as -1.
pub not_null : (n : ℕ) → same_bytes (to_string n) (bytes "-1") ≡ false
unfolding to_string same_bytes bytes
not_null n =
    let (c, s, e, lo, hi) = digits_onto-first (n + 1) n [] (omega arith) in
    let apart : (c == 45) ≡ false = ground arith in rw (e, apart) refl
