-- ===== src/Redact.antt =====
-- Redaction of fetched responses: `find_subslice`, `redact_verbatim_bytes`, `redacted_body_len` and
-- `redact_fetch_body` of crates/avault-cli/src/main.rs.
-- A loop that walks `body[index..]` carries that rest of the body. Its fuel is one more than the
-- length of the body, since each round drops at least one byte.
pub mod Spec
pub mod Replace
pub mod Secrecy
use avault.Prelude.{
  ℕ, zero, suc, ◌+◌, ◌-◌, ◌*◌, ◌^◌, Option, none, some, List, [], ◌∷◌, ◌++◌, ltb, leb, ◌==◌,
  if◌then◌else◌, length, take, drop,
}
use avault.Prelude.Bytes.{Bytes, codes, starts_with}
use avault.Prelude.Result.{◌>>◌, Result, ok, err, ◌>>=◌, bail_if, or_fail}

pub data RedactError : Type 0 where
  body_too_large : RedactError
  out_of_fuel : RedactError

-- `FETCH_REDACTION` and `MAX_FETCH_BODY_BYTES`.
abbrev pub fetch_redaction : Bytes
fetch_redaction = codes "[avault-redacted]"

abbrev pub max_fetch_body_bytes : ℕ
max_fetch_body_bytes = 8 * 1024 * 1024

-- One more than the largest `usize`, on a 64-bit target.
abbrev pub usize_end : ℕ
usize_end = 2 ^ 64

abbrev checked : ℕ → Result RedactError ℕ
checked n = if ltb n usize_end then ok n else err body_too_large

-- The first position at which the needle, which is not empty, stands.
unfoldable pub find_subslice : Bytes → Bytes → Option ℕ
find_subslice [] needle = none
find_subslice (x ∷ xs) needle =
    if starts_with (x ∷ xs) needle
    then some 0
    else elim (find_subslice xs needle) [ none ↦ none | some i ↦ some (suc i) ]

unfoldable pub redacted_body_len : ℕ → ℕ → ℕ → ℕ → Result RedactError ℕ
redacted_body_len body_len matches needle_len redaction_len =
    if leb needle_len redaction_len
    then (checked (matches * (redaction_len - needle_len)) >>= λ growth.
        checked (body_len + growth))
    else ok (body_len - matches * (needle_len - redaction_len))

-- The first loop of `redact_verbatim_bytes`.
unfoldable pub count_matches : ℕ → Bytes → Bytes → ℕ → Option ℕ
count_matches zero rest needle matches = none
count_matches (suc fuel) rest needle matches = elim (find_subslice rest needle) [
  | none ↦ some matches
  | some relative ↦ count_matches fuel (drop (relative + length needle) rest) needle (matches + 1)
]

-- Its second loop.
unfoldable pub replace_matches : ℕ → Bytes → Bytes → Bytes → Option Bytes
replace_matches zero rest needle redacted = none
replace_matches (suc fuel) rest needle redacted = elim (find_subslice rest needle) [
  | none ↦ some (redacted ++ rest)
  | some relative ↦
      replace_matches fuel (drop (relative + length needle) rest) needle
        (redacted ++ (take relative rest ++ fetch_redaction))
]

redact_found : Bytes → Bytes → ℕ → Result RedactError Bytes
redact_found body needle matches = if matches == 0 then ok body else do
  output_len ← redacted_body_len (length body) matches (length needle) (length fetch_redaction)
  bail_if (ltb max_fetch_body_bytes output_len) body_too_large
  or_fail (replace_matches (suc (length body)) body needle []) out_of_fuel

-- The body after the call, or the error.
unfoldable pub redact_verbatim_bytes : Bytes → Bytes → Result RedactError Bytes
unfolding redact_found
redact_verbatim_bytes body [] = ok body
redact_verbatim_bytes body (n ∷ needle) = do
  matches ← or_fail (count_matches (suc (length body)) body (n ∷ needle) 0) out_of_fuel
  redact_found body (n ∷ needle) matches

unfoldable pub redact_fetch_body : Bytes → List Bytes → Result RedactError Bytes
redact_fetch_body body [] = ok body
redact_fetch_body body (needle ∷ needles) = do
  body' ← redact_verbatim_bytes body needle
  redact_fetch_body body' needles
