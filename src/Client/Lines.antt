-- ===== src/Client/Lines.antt =====
-- What client/deserializer.cpp reads at a position of its buffer, where the rest of the buffer is known.
use redis_like.Client.Deserializer.{byte_is, find_crlf, read_line, skip_crlf}
use redis_like.Protocol.Frames.{take-length-append, drop-length-append}
use redis_like.Store.Objects.{Bytes}
use redis_like.Prelude.{
  ℕ, zero, suc, ◌+◌, ◌≤◌, ◌==◌, leb, true, false, ◌&&◌, Option, none, some, [], ◌∷◌, ◌++◌, ◌≡◌,
  refl, ap, ◌∙◌, arith, length, length-append, drop, get_elem?, All, Bool-cases, Option-cases, ok,
  inl, inr,
}

drop-nil : (b : ℕ) → [] ≡ drop {A = ℕ} b []
drop-nil zero = refl
drop-nil (suc b) = refl

pub drop-drop : (a b : ℕ) (s : Bytes) → drop (a + b) s ≡ drop b (drop a s)
drop-drop zero b s = let e : 0 + b ≡ b = omega arith in rw e refl
drop-drop (suc a) b [] = let e : suc a + b ≡ suc (a + b) = omega arith in rw e (drop-nil b)
drop-drop (suc a) b (x ∷ s) =
    let e : suc a + b ≡ suc (a + b) = omega arith in rw e (drop-drop a b s)

-- The buffer from a position on.
pub drop_after :
    (buffer : Bytes) (at : ℕ) (x rest : Bytes)
    → drop at buffer ≡ x ++ rest
    → drop (at + length x) buffer ≡ rest
drop_after buffer at x rest e =
    drop-drop at (length x) buffer ∙ ap (drop (length x)) e ∙ drop-length-append x rest

pub get_elem?-drop :
    (buffer : Bytes) (at c : ℕ) (rest : Bytes)
    → drop at buffer ≡ c ∷ rest
    → get_elem? buffer at ≡ some c
get_elem?-drop [] zero c rest e = absurd cc
get_elem?-drop [] (suc at) c rest e = absurd cc
get_elem?-drop (b ∷ buffer) zero c rest e = cc
get_elem?-drop (b ∷ buffer) (suc at) c rest e = get_elem?-drop buffer at c rest e

pub length-drop :
    (buffer : Bytes) (at : ℕ) (rest : Bytes)
    → drop at buffer ≡ rest
    → 1 ≤ length rest
    → length buffer ≡ at + length rest
length-drop buffer zero rest e h = omega (arith, ap length e)
length-drop [] (suc at) rest e h = absurd (omega (arith, ap length e))
length-drop (b ∷ buffer) (suc at) rest e h = omega (arith, length-drop buffer at rest e h)

-- No "\r\n" inside.
abbrev pub IsLine : Bytes → Type 0
IsLine s = find_crlf s ≡ none

pub IsLine-of : (s : Bytes) → All (λ b. (b == 13) ≡ false) s → IsLine s
unfolding find_crlf
IsLine-of [] k = refl
IsLine-of (b ∷ s) (h, k) = rw (h, IsLine-of s k) refl

find_crlf-append : (s rest : Bytes) → IsLine s → find_crlf (s ++ 13 ∷ 10 ∷ rest) ≡ some (length s)
unfolding find_crlf
find_crlf-append [] rest k = refl
find_crlf-append (b ∷ s) rest k = elim (Bool-cases ((b == 13) && byte_is s 0 10)) [
  | inl here ↦ (let no : Path (Option ℕ) (some 0) none = (rw here at k) in absurd cc)
  | inr not_here ↦ elim (Option-cases (find_crlf s)) [
    | inr (n, e) ↦
        (let no : Path (Option ℕ) (some (suc n)) none = (rw (not_here, e) at k) in absurd cc)
    | inl e ↦ rw (find_crlf-append s rest e) (rw (still b s not_here) refl)
  ]
]
  where
    still :
        (b : ℕ) (s : Bytes)
        → ((b == 13) && byte_is s 0 10) ≡ false
        → ((b == 13) && byte_is (s ++ 13 ∷ 10 ∷ rest) 0 10) ≡ false
    still b [] h = ground arith
    still b (c ∷ s) h = h

pub read_line-append :
    (buffer : Bytes) (at : ℕ) (line rest : Bytes)
    → IsLine line
    → drop at buffer ≡ line ++ 13 ∷ 10 ∷ rest
    → read_line buffer at ≡ ok (line, at + length line + 2)
unfolding read_line
read_line-append buffer at line rest k e =
    let inside : leb (length buffer) at ≡ false = ground (
      arith,
      length-append line (13 ∷ 10 ∷ rest),
      length-drop buffer at (line ++ 13 ∷ 10 ∷ rest) e,
    ) in
    rw (inside, e, find_crlf-append line rest k)
      (rw (e, take-length-append line (13 ∷ 10 ∷ rest)) refl)

pub skip_crlf-append :
    (buffer : Bytes) (at : ℕ) (rest : Bytes)
    → drop at buffer ≡ 13 ∷ 10 ∷ rest
    → skip_crlf buffer at ≡ ok (at + 2)
unfolding skip_crlf
skip_crlf-append buffer at rest e =
    let first = get_elem?-drop buffer at 13 (10 ∷ rest) e in
    let second =
      get_elem?-drop buffer (at + 1) 10 rest (drop_after buffer at (13 ∷ []) (10 ∷ rest) e) in
    let inside : leb (length buffer) (at + 1) ≡ false =
      ground (arith, length-drop buffer at (13 ∷ 10 ∷ rest) e) in
    let first_is : byte_is buffer at 13 ≡ true = rw (byte_is, first) refl in
    let second_is : byte_is buffer (at + 1) 10 ≡ true = rw (byte_is, second) refl in
    rw (inside, first_is, second_is) refl

-- The position after a line.
pub line_after :
    (buffer : Bytes) (at : ℕ) (line rest : Bytes)
    → drop at buffer ≡ line ++ 13 ∷ 10 ∷ rest
    → drop (at + length line + 2) buffer ≡ rest
line_after buffer at line rest e =
    drop_after buffer (at + length line) (13 ∷ 10 ∷ []) rest
      (drop_after buffer at line (13 ∷ 10 ∷ rest) e)
