-- ===== src/Client/Ends.antt =====
-- `parse` of client/deserializer.cpp ends on every input: the recursion of arrays reads a byte at
-- least for each response.
use redis_like.Client.Deserializer.{
  find_crlf, read_line, skip_crlf, rethrow, byte_is, parse_simple_string, parse_error,
  parse_integer, bulk_of, parse_bulk_string, array_of, parse_array, parse_type, parse_one,
  parse_elements, parse, parse_data, Elements, get_remaining_data, step_back,
}
use redis_like.Prelude.Numbers.{stoll, stox, skip_spaces, sign_of, digits_from, minus}
use redis_like.Protocol.Response.{Response, Responses, cons, array}
use redis_like.Store.Objects.{Bytes, same_bytes}
use redis_like.Prelude.{
  ℕ, zero, suc, ◌+◌, ◌%◌, ◌^◌, ◌≤◌, ◌<◌, ◌==◌, ltb, leb, true, false, ◌||◌, Option, none, some, [],
  ◌∷◌, ◌++◌, ◌≡◌, refl, ◌⊎◌, inl, inr, arith, length, take, drop, get_elem?, Run, ok, throw,
  undefined, ◌>>=◌, pos, negsuc, bytes, Bool-cases, Option-cases, if◌then◌else◌,
}

module _ {A : Type 0} where
  -- A call that ends, and where it has a result, the position is at `least` or after it.
  abbrev Steps : ℕ → Run (Option A × ℕ) → Type 0
  Steps least (ok (none, at)) = Unit
  Steps least (ok (some a, at)) = least ≤ at
  Steps least (throw what) = Unit
  Steps least undefined = ⊥

  Steps-least : (a b : ℕ) (call : Run (Option A × ℕ)) → a ≤ b → Steps b call → Steps a call
  Steps-least a b (ok (none, _)) le h = tt
  Steps-least a b (ok (some _, at)) le h = omega arith
  Steps-least a b (throw _) le h = tt
  Steps-least a b undefined le h = h

  Steps-rethrow :
      (least : ℕ) (what : Bytes) (call : Run (Option A × ℕ))
      → Steps least call
      → Steps least (rethrow what call)
  Steps-rethrow least what (ok a) h = h
  Steps-rethrow least what (throw _) h = tt
  Steps-rethrow least what undefined h = h

-- A call that returns or throws.
abbrev pub Settled : {A : Type 0} → Run A → Type 0
Settled {A} call = ((a : A) × (call ≡ ok a)) ⊎ ((what : Bytes) × (call ≡ throw what))

stoll-Settled : (s : Bytes) → Settled (stoll s)
unfolding stoll stox
stoll-Settled s = elim (Option-cases (digits_from none (sign_of (skip_spaces s)).1)) [
  | inl e ↦ inr (bytes "stoll", rw (stoll, stox, e) refl)
  | inr (n, e) ↦ elim (Bool-cases (sign_of (skip_spaces s)).0) [
    | inl neg ↦ elim (Bool-cases (leb n (2 ^ 63))) [
      | inl fits ↦ inl (minus n, rw (stoll, stox, e) (rw neg (rw fits refl)))
      | inr out ↦ inr (bytes "stoll", rw (stoll, stox, e) (rw neg (rw out refl)))
    ]
    | inr plus ↦ elim (Bool-cases (ltb n (2 ^ 63))) [
      | inl fits ↦ inl (pos n, rw (stoll, stox, e) (rw plus (rw fits refl)))
      | inr out ↦ inr (bytes "stoll", rw (stoll, stox, e) (rw plus (rw out refl)))
    ]
  ]
]

get_elem?-some : (s : Bytes) (at c : ℕ) → get_elem? s at ≡ some c → at < length s
get_elem?-some [] at c e = absurd cc
get_elem?-some (b ∷ s) zero c e = omega arith
get_elem?-some (b ∷ s) (suc at) c e = omega (arith, get_elem?-some s at c e)

module _ (buffer : Bytes) where
  -- A line ends behind a position, or there is none.
  read_line-cases :
      (at : ℕ)
      → ((line : Bytes) × (at' : ℕ) × (read_line buffer at ≡ ok (line, at')) × (at + 2 ≤ at'))
        ⊎ ((what : Bytes) × (read_line buffer at ≡ throw what))
  unfolding read_line
  read_line-cases at = elim (Bool-cases (leb (length buffer) at)) [
    | inl over ↦ inr (bytes "Unexpected end of data", rw over refl)
    | inr more ↦ elim (Option-cases (find_crlf (drop at buffer))) [
      | inl e ↦ inr (bytes "Incomplete data: missing CRLF", rw (more, e) refl)
      | inr (n, e) ↦ inl (take n (drop at buffer), at + n + 2, rw (more, e) refl, omega arith)
    ]
  ]

  skip_crlf-cases :
      (at : ℕ)
      → (skip_crlf buffer at ≡ ok (at + 2)) ⊎ ((what : Bytes) × (skip_crlf buffer at ≡ throw what))
  unfolding skip_crlf
  skip_crlf-cases at =
      let missing =
        leb (length buffer) (at + 1)
        || (if byte_is buffer at 13 then false else true)
        || (if byte_is buffer (at + 1) 10 then false else true) in
      elim (Bool-cases missing) [
        | inl out ↦ inr (bytes "Expected CRLF", rw out refl)
        | inr here ↦ inl (rw here refl)
      ]

  module _ (at : ℕ) where
    parse_simple_string-Steps : Steps (at + 1) (parse_simple_string buffer at)
    unfolding parse_simple_string
    parse_simple_string-Steps = elim (read_line-cases at) [
      | inl (line, at', e, le) ↦ rw (parse_simple_string, e) (omega arith)
      | inr (what, e) ↦ rw (parse_simple_string, e) tt
    ]

    parse_error-Steps : Steps (at + 1) (parse_error buffer at)
    unfolding parse_error
    parse_error-Steps = elim (read_line-cases at) [
      | inl (line, at', e, le) ↦ rw (parse_error, e) (omega arith)
      | inr (what, e) ↦ rw (parse_error, e) tt
    ]

    parse_integer-Steps : Steps (at + 1) (parse_integer buffer at)
    unfolding parse_integer
    parse_integer-Steps = elim (read_line-cases at) [
      | inl (line, at', e, le) ↦ elim (stoll-Settled line) [
        | inl (n, r) ↦ rw (parse_integer, e, r) (omega arith)
        | inr (what, r) ↦ rw (parse_integer, e, r) tt
      ]
      | inr (what, e) ↦ rw (parse_integer, e) tt
    ]

    bulk_of-Steps : (text : Bytes) → Steps (at + 1) (bulk_of buffer text at)
    unfolding bulk_of
    bulk_of-Steps text = elim (stoll-Settled text) [
      | inr (what, r) ↦ rw (bulk_of, r) tt
      | inl (negsuc n, r) ↦ rw (bulk_of, r) tt
      | inl (pos n, r) ↦ elim (Bool-cases (ltb (length buffer) ((at + n + 2) % 2 ^ 64))) [
        | inl short ↦ rw (bulk_of, r, short) tt
        | inr enough ↦ elim (skip_crlf-cases (at + n)) [
          | inl skip ↦ rw (bulk_of, r, enough, skip) (omega arith)
          | inr (what, skip) ↦ rw (bulk_of, r, enough, skip) tt
        ]
      ]
    ]

  parse_bulk_string-Steps : (at : ℕ) → Steps (at + 1) (parse_bulk_string buffer at)
  unfolding parse_bulk_string
  parse_bulk_string-Steps at = elim (read_line-cases at) [
    | inr (what, e) ↦ rw (parse_bulk_string, e) tt
    | inl (line, at', e, le) ↦ elim (Bool-cases (same_bytes line (bytes "-1"))) [
      | inl null ↦ rw (parse_bulk_string, e, null) (omega arith)
      | inr text ↦
          rw (parse_bulk_string, e, text)
            (Steps-rethrow (at + 1) (bytes "Invalid bulk string length: " ++ line)
              (bulk_of buffer line at')
              (Steps-least (at + 1) (at' + 1) (bulk_of buffer line at') (omega arith)
                (bulk_of-Steps at' line)))
    ]
  ]

  module _ (elements : Elements) (at : ℕ)
      (inner : (n at' : ℕ) → at < at' → Steps at' (elements n at')) where
    array_of-Steps :
        (text : Bytes) (at' : ℕ) → at < at' → Steps (at + 1) (array_of elements text at')
    unfolding array_of
    array_of-Steps text at' lt = elim (stoll-Settled text) [
      | inr (what, r) ↦ rw (array_of, r) tt
      | inl (negsuc n, r) ↦ rw (array_of, r) tt
      | inl (pos n, r) ↦ rw (array_of, r) (from (elements n at') (inner n at' lt))
    ]
      where
        from :
            (call : Run (Option Responses × ℕ))
            → Steps at' call
            → Steps (at + 1) (
                call >>= λ (rs, at''). elim rs [
                  | none ↦ ok (none, step_back at' text)
                  | some rs ↦ ok (some (array false rs), at'')
                ])
        from (ok (none, _)) h = tt
        from (ok (some rs, at'')) h = omega arith
        from (throw what) h = tt
        from undefined h = h

    parse_array-Steps : Steps (at + 1) (parse_array elements buffer at)
    unfolding parse_array
    parse_array-Steps = elim (read_line-cases at) [
      | inr (what, e) ↦ rw (parse_array, e) tt
      | inl (line, at', e, le) ↦ elim (Bool-cases (same_bytes line (bytes "-1"))) [
        | inl null ↦ rw (parse_array, e, null) (omega arith)
        | inr text ↦
            rw (parse_array, e, text)
              (Steps-rethrow (at + 1) (bytes "Invalid array length: " ++ line)
                (array_of elements line at') (array_of-Steps line at' (omega arith)))
      ]
    ]

    parse_type-Steps : (c : ℕ) → Steps (at + 1) (parse_type elements buffer c at)
    unfolding parse_type
    parse_type-Steps c = elim (Bool-cases (c == 43)) [
      | inl is ↦ rw (parse_type, is) (parse_simple_string-Steps at)
      | inr n1 ↦ elim (Bool-cases (c == 45)) [
        | inl is ↦ rw (parse_type, n1, is) (parse_error-Steps at)
        | inr n2 ↦ elim (Bool-cases (c == 58)) [
          | inl is ↦ rw (parse_type, n1, n2, is) (parse_integer-Steps at)
          | inr n3 ↦ elim (Bool-cases (c == 36)) [
            | inl is ↦ rw (parse_type, n1, n2, n3, is) (parse_bulk_string-Steps at)
            | inr n4 ↦ elim (Bool-cases (c == 42)) [
              | inl is ↦ rw (parse_type, n1, n2, n3, n4, is) parse_array-Steps
              | inr n5 ↦ rw (parse_type, n1, n2, n3, n4, n5) tt
            ]
          ]
        ]
      ]
    ]

  -- Behind the end of the buffer nothing is read.
  parse_one-Steps :
      (elements : Elements) (at : ℕ)
      → (at < length buffer → (n at' : ℕ) → at + 1 < at' → Steps at' (elements n at'))
      → Steps (at + 1) (parse_one elements buffer at)
  unfolding parse_one
  parse_one-Steps elements at inner = elim (Option-cases (get_elem? buffer at)) [
    | inl e ↦ rw (parse_one, e) tt
    | inr (c, e) ↦
        rw (parse_one, e)
          (Steps-least (at + 1) (at + 1 + 1) (parse_type elements buffer c (at + 1)) (omega arith)
            (parse_type-Steps elements (at + 1) (inner (get_elem?-some buffer at c e)) c))
  ]

  parse_one_end :
      (elements : Elements) (at : ℕ)
      → get_elem? buffer at ≡ none
      → parse_one elements buffer at ≡ ok (none, at)
  unfolding parse_one
  parse_one_end elements at e = rw (parse_one, e) refl

  -- The element that was read, and those behind it.
  then_rest :
      (at : ℕ) (rest : ℕ → Run (Option Responses × ℕ)) (call : Run (Option Response × ℕ))
      → Steps (at + 1) call
      → ((at' : ℕ) → at < at' → Steps at' (rest at'))
      → Steps at (
          call >>= λ (r, at'). elim r [
            | none ↦ ok (none, at')
            | some element ↦ rest at' >>= λ (rs, at''). elim rs [
              | none ↦ ok (none, at'')
              | some rs ↦ ok (some (cons element rs), at'')
            ]
          ])
  then_rest at rest (throw what) h inner = tt
  then_rest at rest undefined h inner = h
  then_rest at rest (ok (none, at')) h inner = tt
  then_rest at rest (ok (some element, at')) h inner = from (rest at') (inner at' (omega arith))
    where
      from :
          (call : Run (Option Responses × ℕ))
          → Steps at' call
          → Steps at (
              call >>= λ (rs, at''). elim rs [
                | none ↦ ok (none, at'')
                | some rs ↦ ok (some (cons element rs), at'')
              ])
      from (ok (none, _)) k = tt
      from (ok (some rs, at'')) k = omega arith
      from (throw what) k = tt
      from undefined k = k

  parse_elements-Steps :
      (fuel n at : ℕ)
      → 1 ≤ fuel
      → length buffer < at + fuel
      → Steps at (parse_elements buffer fuel n at)
  unfolding parse_elements
  parse_elements-Steps zero n at pos_fuel h = absurd (omega arith)
  parse_elements-Steps (suc fuel) zero at pos_fuel h = omega arith
  parse_elements-Steps (suc fuel) (suc n) at pos_fuel h =
      elim (Option-cases (get_elem? buffer at)) [
        | inl e ↦ rw (parse_elements, parse_one_end (parse_elements buffer fuel) at e) tt
        | inr (c, e) ↦
            let inside = get_elem?-some buffer at c e in
            then_rest at (parse_elements buffer fuel n)
              (parse_one (parse_elements buffer fuel) buffer at)
              (parse_one-Steps (parse_elements buffer fuel) at
                (λ _ n' at' lt. parse_elements-Steps fuel n' at' (omega arith) (omega arith)))
              (λ at' lt. parse_elements-Steps fuel n at' (omega arith) (omega arith))
      ]

Steps-Settled :
    {A : Type 0} (least : ℕ) (call : Run (Option A × ℕ)) → Steps least call → Settled call
Steps-Settled least (ok a) h = inl (a, refl)
Steps-Settled least (throw what) h = inr (what, refl)
Steps-Settled least undefined h = absurd h

-- `parse` of a string returns or throws, whatever the string: the fuel of its recursion, one more than
-- the bytes, is enough.
pub parse_data-Settled : (text : Bytes) → Settled (parse_data text)
unfolding parse_data parse
parse_data-Settled text =
    let call = parse_one (parse_elements text (length text + 1)) text 0 in
    let steps =
      parse_one-Steps text (parse_elements text (length text + 1)) 0 (λ _ n at lt.
        parse_elements-Steps text (length text + 1) n at (omega arith) (omega arith)) in
    elim (Steps-Settled 1 call steps) [
      | inr (what, e) ↦ inr (what, rw (parse_data, parse, e) refl)
      | inl ((none, at), e) ↦
          inr (bytes "Failed to parse RESP data", rw (parse_data, parse, e) refl)
      | inl ((some r, at), e) ↦ inl (
        (r, get_remaining_data (record { buffer = text; pos_ = at })),
        rw (parse_data, parse, e) refl,
      )
    ]
