-- ===== src/Query/Forms.antt =====
-- A form decoder reads encoded bytes back.
use avault.Prelude.{
  ℕ, ◌+◌, ◌-◌, ◌*◌, ◌/◌, ◌%◌, ◌<◌, ◌≡◌, refl, sym, ap, ◌∙◌, inl, inr, Bool, true, false, ◌||◌,
  Option, none, some, [], ◌∷◌, ◌++◌, append_assoc, arith, ltb, ◌==◌, if◌then◌else◌, ==_iff,
  Bool-cases, All,
}
use avault.Prelude.Bytes.{Bytes}
use avault.Query.{is_unreserved, hex_digit, query_byte, push_query_encoded}

-- What a form decoder has read of a `%` escape.
pub data Escape : Type 0 where
  outside percent : Escape
  high : ℕ → Escape

abbrev hex_value : ℕ → ℕ
hex_value c = if ltb c 65 then c - 48 else c - 55

abbrev next_escape : Escape → ℕ → Escape
next_escape outside c = if c == b'%' then percent else outside
next_escape percent c = high (hex_value c)
next_escape (high n) c = outside

abbrev decoded : Escape → ℕ → Option ℕ
decoded outside c = if c == b'%' then none else if c == b'+' then some 32 else some c
decoded percent c = none
decoded (high n) c = some (16 * n + hex_value c)

abbrev with_byte : Option ℕ → Option Bytes → Option Bytes
with_byte none rest = rest
with_byte (some c) none = none
with_byte (some c) (some cs) = some (c ∷ cs)

unfoldable pub decode_form : Escape → Bytes → Option Bytes
decode_form outside [] = some []
decode_form percent [] = none
decode_form (high n) [] = none
decode_form e (c ∷ cs) = with_byte (decoded e c) (decode_form (next_escape e c) cs)

-- The bytes before the first that ends a part of a query, and the rest.
abbrev pub ends_part : ℕ → Bool
ends_part c = c == b'=' || c == b'&' || c == b'#'

unfoldable pub part : Bytes → Bytes × Bytes
part [] = ([], [])
part (c ∷ cs) = let rest = part cs in if ends_part c then ([], c ∷ cs) else (c ∷ rest.0, rest.1)

hex_value-hex_digit : (n : ℕ) → n < 16 → hex_value (hex_digit n) ≡ n
hex_value-hex_digit n h = ground arith

hex_pair :
    (c : ℕ) → c < 256 → 16 * hex_value (hex_digit (c / 16)) + hex_value (hex_digit (c % 16)) ≡ c
hex_pair c h =
    omega (
      arith,
      hex_value-hex_digit (c / 16) (omega arith),
      hex_value-hex_digit (c % 16) (omega arith),
    )

-- A byte that stands for itself is none of those with a meaning.
plain_byte :
    (c : ℕ)
    → is_unreserved c ≡ true
    → ((c == 37) ≡ false) × ((c == 43) ≡ false) × (ends_part c ≡ false)
plain_byte c u = (ground arith, ground arith, ground arith)

digit_plain : (n : ℕ) → n < 16 → ends_part (hex_digit n) ≡ false
digit_plain n h = ground arith

decode_form-query_byte :
    (c : ℕ) (cs : Bytes)
    → c < 256
    → decode_form outside (query_byte c ++ cs) ≡ with_byte (some c) (decode_form outside cs)
unfolding decode_form
decode_form-query_byte c cs h = elim (Bool-cases (is_unreserved c)) [
  | inl u ↦ let (p, q, r) = plain_byte c u in rw (u, p, q) refl
  | inr u ↦ elim (Bool-cases (c == 32)) [
    | inl s ↦
        rw (u, s) (ap (λ n. with_byte (some n) (decode_form outside cs)) (sym ((==_iff c 32).0 s)))
    | inr s ↦ rw (u, s) (ap (λ n. with_byte (some n) (decode_form outside cs)) (hex_pair c h))
  ]
]

pub decode_form-push_query_encoded :
    (text : Bytes)
    → All (λ c. c < 256) text
    → decode_form outside (push_query_encoded text) ≡ some text
unfolding decode_form push_query_encoded
decode_form-push_query_encoded [] h = refl
decode_form-push_query_encoded (c ∷ cs) (h, hs) =
    decode_form-query_byte c (push_query_encoded cs) h
    ∙ ap (with_byte (some c)) (decode_form-push_query_encoded cs hs)

-- An encoded text ends at a byte that ends a part, or with the query.
abbrev pub Ends : Bytes → Type 0
Ends [] = Unit
Ends (c ∷ cs) = ends_part c ≡ true

part-query_byte :
    (c : ℕ) (cs : Bytes)
    → c < 256
    → part (query_byte c ++ cs) ≡ (query_byte c ++ (part cs).0, (part cs).1)
unfolding part
part-query_byte c cs h = elim (Bool-cases (is_unreserved c)) [
  | inl u ↦ let (p, q, r) = plain_byte c u in rw (u, r) refl
  | inr u ↦ elim (Bool-cases (c == 32)) [
    | inl s ↦ rw (u, s) refl
    | inr s ↦ rw (u, s, digit_plain (c / 16) (omega arith), digit_plain (c % 16) (omega arith)) refl
  ]
]

pub part-push_query_encoded :
    (text rest : Bytes)
    → All (λ c. c < 256) text
    → Ends rest
    → part (push_query_encoded text ++ rest) ≡ (push_query_encoded text, rest)
unfolding part push_query_encoded
part-push_query_encoded [] [] h e = refl
part-push_query_encoded [] (c ∷ cs) h e = rw e refl
part-push_query_encoded (c ∷ cs) rest (h, hs) e =
    rw
      (
        append_assoc (query_byte c) (push_query_encoded cs) rest,
        part-query_byte c (push_query_encoded cs ++ rest) h,
        part-push_query_encoded cs rest hs e,
      )
      refl
