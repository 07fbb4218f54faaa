-- ===== src/Protocol/Sound.antt =====
-- What server/src/protocol/parser.cpp accepts is in the request format: parsing loses nothing.
use mathlib.Core.Option.{some-injective}
use redis_like.Protocol.Words.{to_bytes, of_bytes}
use redis_like.Protocol.Parser.{
  k_max_args, Bytes, parser_len, parser_str, parser_strs, parser_req, ◌>>=◌, all_read,
}
use redis_like.Protocol.Frames.{encode_strs, encode_req, Fits}
use redis_like.Prelude.{
  ℕ, zero, suc, ◌+◌, ◌*◌, ◌/◌, ◌%◌, ◌^◌, ◌≤◌, ◌<◌, ltb, le→ltb, if◌then◌else◌, false, Option, none,
  some, List, [], ◌∷◌, ◌++◌, ◌≡◌, refl, ap, subst, arith, length, take, drop, All, append_assoc,
  append-nil, Bool-cases, inl, inr,
}

-- Each number is a byte.
abbrev pub IsBytes : Bytes → Type 0
IsBytes s = All (λ b. b < 256) s

-- A successful chain of two steps, taken apart.
>>=-eq-some {ℓ κ} :
    {A : Type ℓ} {B : Type κ} (m : Option A) (f : A → Option B) {b : B}
    → (m >>= f) ≡ some b
    → (a : A) × (m ≡ some a) × (f a ≡ some b)
>>=-eq-some none f h = cc
>>=-eq-some (some a) f h = (a, refl, h)

-- Four bytes are those of the word that they make.
to_bytes_word :
    (a b c d : ℕ) (cur : Bytes)
    → IsBytes (a ∷ b ∷ c ∷ d ∷ cur)
    → to_bytes (a + b * 256 + c * 65536 + d * 16777216) ++ cur ≡ a ∷ b ∷ c ∷ d ∷ cur
unfolding to_bytes
to_bytes_word a b c d cur (ka, (kb, (kc, (kd, k)))) =
    let w : ℕ = a + b * 256 + c * 65536 + d * 16777216 in
    let e0 : w % 256 ≡ a = omega arith in
    let e1 : w / 256 % 256 ≡ b = omega arith in
    let e2 : w / 65536 % 256 ≡ c = omega arith in
    let e3 : w / 16777216 % 256 ≡ d = omega arith in λ i. e0 i ∷ e1 i ∷ e2 i ∷ e3 i ∷ cur

abbrev IsLen : Bytes → ℕ × Bytes → Type 0
IsLen cur r = (to_bytes r.0 ++ r.1 ≡ cur) × (r.0 < 2 ^ 32) × IsBytes r.1

parser_len_sound :
    (cur : Bytes) (r : ℕ × Bytes) → parser_len cur ≡ some r → IsBytes cur → IsLen cur r
unfolding parser_len of_bytes
parser_len_sound [] r h k = cc
parser_len_sound (a ∷ []) r h k = cc
parser_len_sound (a ∷ b ∷ []) r h k = cc
parser_len_sound (a ∷ b ∷ c ∷ []) r h k = cc
parser_len_sound (a ∷ b ∷ c ∷ d ∷ cur) r h (ka, (kb, (kc, (kd, k)))) =
    let long : ltb (length (a ∷ b ∷ c ∷ d ∷ cur)) 4 ≡ false = le→ltb _ _ (omega arith) in
    let word : ℕ = a + b * 256 + c * 65536 + d * 16777216 in
    let e : ◌≡◌ {A = Option (ℕ × Bytes)} (some (word, cur)) (some r) = (rw long at h) in
    subst (IsLen (a ∷ b ∷ c ∷ d ∷ cur)) (some-injective _ _ e)
      (to_bytes_word a b c d cur (ka, (kb, (kc, (kd, k)))), omega arith, k)

take-append-drop :
    (cur : Bytes) (n : ℕ)
    → n ≤ length cur
    → (take n cur ++ drop n cur ≡ cur) × (length (take n cur) ≡ n)
take-append-drop cur zero h = (refl, refl)
take-append-drop [] (suc n) h = absurd (omega arith)
take-append-drop (b ∷ cur) (suc n) h =
    let (e, l) = take-append-drop cur n (omega arith) in (ap (λ w. b ∷ w) e, ap suc l)

IsBytes-drop : (cur : Bytes) (n : ℕ) → IsBytes cur → IsBytes (drop n cur)
IsBytes-drop cur zero k = k
IsBytes-drop [] (suc n) k = tt
IsBytes-drop (b ∷ cur) (suc n) k = IsBytes-drop cur n k.1

abbrev IsStr : Bytes → ℕ → Bytes × Bytes → Type 0
IsStr cur len r = (r.0 ++ r.1 ≡ cur) × (length r.0 ≡ len) × IsBytes r.1

parser_str_sound :
    (cur : Bytes) (len : ℕ) (r : Bytes × Bytes)
    → parser_str cur len ≡ some r
    → IsBytes cur
    → IsStr cur len r
unfolding parser_str
parser_str_sound cur len r h k = elim (Bool-cases (ltb (length cur) len)) [
  | inl short ↦
      let none_left : ◌≡◌ {A = Option (Bytes × Bytes)} none (some r) = (rw short at h) in cc
  | inr enough ↦
      let (e, l) = take-append-drop cur len (ground arith) in
      let e' : some (take len cur, drop len cur) ≡ some r = (rw enough at h) in
      subst (IsStr cur len) (some-injective _ _ e') (e, l, IsBytes-drop cur len k)
]

abbrev IsStrs : ℕ → Bytes → List Bytes × Bytes → Type 0
IsStrs n cur r = (encode_strs r.0 ++ r.1 ≡ cur) × (length r.0 ≡ n) × All Fits r.0

-- A length, its string and the strings after it.
IsStrs-cons :
    (n : ℕ) (cur : Bytes) (len : ℕ) (cur₁ s cur₂ : Bytes) (strs : List Bytes) (cur₃ : Bytes)
    → IsLen cur (len, cur₁)
    → IsStr cur₁ len (s, cur₂)
    → IsStrs n cur₂ (strs, cur₃)
    → IsStrs (suc n) cur (s ∷ strs, cur₃)
IsStrs-cons n cur len cur₁ s cur₂ strs cur₃ (w, small, _) (w', l, _) (w'', l', fits) =
    (rw l (simp append_assoc (rw (w'', w') w)), ap suc l', (omega arith, fits))

parser_strs_sound :
    (n : ℕ) (cur : Bytes) (r : List Bytes × Bytes)
    → parser_strs n cur ≡ some r
    → IsBytes cur
    → IsStrs n cur r
unfolding parser_strs
parser_strs_sound zero cur r h k = subst (IsStrs zero cur) (some-injective _ _ h) (refl, refl, tt)
parser_strs_sound (suc n) cur r h k =
    let ((len, cur₁), e₁, h₁) = >>=-eq-some (parser_len cur) _ h in
    let ((s, cur₂), e₂, h₂) = >>=-eq-some (parser_str cur₁ len) _ h₁ in
    let ((strs, cur₃), e₃, h₃) = >>=-eq-some (parser_strs n cur₂) _ h₂ in
    let k₁ = parser_len_sound cur (len, cur₁) e₁ k in
    let k₂ = parser_str_sound cur₁ len (s, cur₂) e₂ k₁.2 in
    subst (IsStrs (suc n) cur) (some-injective _ _ h₃) (
      IsStrs-cons n cur len cur₁ s cur₂ strs cur₃ k₁ k₂
        (parser_strs_sound n cur₂ (strs, cur₃) e₃ k₂.2))

abbrev IsReq : Bytes → List Bytes → Type 0
IsReq request args = (encode_req args ≡ request) × (length args ≤ k_max_args) × All Fits args

-- The end of a request: all was read.
IsReq-all_read :
    (request : Bytes) (nstr : ℕ) (cur : Bytes) (r : List Bytes × Bytes) (args : List Bytes)
    → nstr ≤ k_max_args
    → IsLen request (nstr, cur)
    → IsStrs nstr cur r
    → all_read r ≡ some args
    → IsReq request args
IsReq-all_read request nstr cur (strs, b ∷ rest) args few w k h = cc
IsReq-all_read request nstr cur (strs, []) args few (w, _, _) (w', l, fits) h =
    subst (IsReq request) (some-injective _ _ h)
      (rw l (rw (← append-nil (encode_strs strs), w') w), omega arith, fits)

-- What the parser accepts is the encoding of what it returns, at most 32 strings, each of a length
-- that fits its word.
pub parser_req_sound :
    (request : Bytes) (args : List Bytes)
    → IsBytes request
    → parser_req request ≡ some args
    → (encode_req args ≡ request) × (length args ≤ k_max_args) × All Fits args
unfolding parser_req
parser_req_sound request args k h =
    let ((nstr, cur), e, h') = >>=-eq-some (parser_len request) _ h in
    let w = parser_len_sound request (nstr, cur) e k in rest nstr cur w h'
  where
    rest :
        (nstr : ℕ) (cur : Bytes)
        → IsLen request (nstr, cur)
        → (if ltb k_max_args nstr then none else parser_strs nstr cur >>= all_read) ≡ some args
        → IsReq request args
    rest nstr cur w e = elim (Bool-cases (ltb k_max_args nstr)) [
      | inl many ↦ let none_left : none ≡ some args = (rw many at e) in cc
      | inr few ↦
          let e' : (parser_strs nstr cur >>= all_read) ≡ some args = (rw few at e) in
          let (r, run, done) = >>=-eq-some (parser_strs nstr cur) all_read e' in
          IsReq-all_read request nstr cur r args (ground arith) w
            (parser_strs_sound nstr cur r run w.2) done
    ]
