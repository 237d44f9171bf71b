-- ===== src/Json/Bounds.antt =====
-- The indices that the scanner gives stand within the input, so no slice of it is out of range,
-- and the loop over the fields ends.
use avault.Prelude.{
  ℕ, zero, suc, ◌+◌, ◌-◌, ◌≤◌, ◌<◌, ◌≡◌, refl, inl, inr, Bool, true, false, ◌||◌, some, [], ◌∷◌,
  arith, ◌==◌, Bool-cases, length, drop, length-drop,
}
use avault.Prelude.Bytes.{Bytes, codes, starts_with, is_digit}
use avault.Prelude.Result.{Result, ok, err, ◌>>=◌, guard, bail_if, Result-cases, bind-eq-ok}
use avault.Json.{JsonError, field_missing, key_expected, json_invalid}
use avault.Json.Strings.{decode_json_string_bytes, string_end_from, json_string_end}
use avault.Json.Values.{
  is_scalar_byte, is_json_ws, end_while, skip_json_ws, next_stack, compound_from, value_end,
  json_value_end,
}
use avault.Json.Fields.{next_is, found, next, field_key, after_value, field_round, field_loop}

string_end_from-within :
    (f : Bool) (rest : Bytes) (i e : ℕ)
    → string_end_from f rest i ≡ ok e
    → (i < e) × (e ≤ i + length rest)
unfolding string_end_from
string_end_from-within true [] i e h = cc
string_end_from-within false [] i e h = cc
string_end_from-within true (x ∷ rest) i e h =
    ground (arith, string_end_from-within false rest (i + 1) e h)
string_end_from-within false (x ∷ rest) i e h =
    ground (arith, string_end_from-within (x == b'\\') rest (i + 1) e)

pub json_string_end-within :
    (input : Bytes) (e : ℕ) → json_string_end input ≡ ok e → (2 ≤ e) × (e ≤ length input)
unfolding json_string_end starts_with
json_string_end-within [] e h = cc
json_string_end-within (x ∷ rest) e h = ground (arith, string_end_from-within false rest 1 e)

end_while-within :
    (p : ℕ → Bool) (rest : Bytes) (i : ℕ)
    → (i ≤ end_while p rest i) × (end_while p rest i ≤ i + length rest)
unfolding end_while
end_while-within p [] i = omega arith
end_while-within p (x ∷ rest) i = ground (arith, end_while-within p rest (i + 1))

compound_from-within :
    (k : ℕ) (rest : Bytes) (i : ℕ) (stack : Bytes) (e : ℕ)
    → compound_from k rest i stack ≡ ok e
    → (i < e) × (e ≤ i + length rest)
unfolding compound_from
compound_from-within zero [] i stack e h = cc
compound_from-within (suc k) [] i stack e h = cc
compound_from-within (suc k) (x ∷ rest) i stack e h =
    ground (arith, compound_from-within k rest (i + 1) stack e h)
compound_from-within zero (x ∷ rest) i stack e h = elim (Bool-cases (x == b'"')) [
  | inl q ↦
      let (size, _, h') = bind-eq-ok (json_string_end (x ∷ rest)) _ (rw (q, compound_from) at h) in
      ground (arith, compound_from-within (size - 1) rest (i + 1) stack e h')
  | inr q ↦
      let (left, _, h') = bind-eq-ok (next_stack x stack) _ (rw (q, compound_from) at h) in
      ground (arith, compound_from-within zero rest (i + 1) left e)
]

starts_with-length : (xs ys : Bytes) → starts_with xs ys ≡ true → length ys ≤ length xs
unfolding starts_with
starts_with-length xs [] h = omega arith
starts_with-length [] (y ∷ ys) h = cc
starts_with-length (x ∷ xs) (y ∷ ys) h = ground (arith, starts_with-length xs ys)

string_value-within :
    (rest : Bytes) (i e : ℕ)
    → (json_string_end rest >>= λ size. ok (i + size)) ≡ ok e
    → (i < e) × (e ≤ i + length rest)
string_value-within rest i e h =
    let (size, h', sum) = bind-eq-ok (json_string_end rest) (λ size. ok (i + size)) h in
    ground (arith, json_string_end-within rest size h', sum)

scalar_end-within :
    (x : ℕ) (rest : Bytes) (i : ℕ)
    → (x == b'-' || is_digit x) ≡ true
    → (i < end_while is_scalar_byte (x ∷ rest) i)
      × (end_while is_scalar_byte (x ∷ rest) i ≤ i + suc (length rest))
unfolding end_while
scalar_end-within x rest i h =
    let number : is_scalar_byte x ≡ true = ground arith in
    rw (number, end_while) (omega (arith, end_while-within is_scalar_byte rest (i + 1)))

value_end-within :
    (rest : Bytes) (i e : ℕ) → value_end rest i ≡ ok e → (i < e) × (e ≤ i + length rest)
unfolding value_end
value_end-within [] i e h = cc
value_end-within (x ∷ rest) i e h = ground (
  arith,
  string_value-within (x ∷ rest) i e,
  compound_from-within zero rest (i + 1) (x ∷ []) e,
  scalar_end-within x rest i,
  starts_with-length (x ∷ rest) (codes "true"),
  starts_with-length (x ∷ rest) (codes "false"),
  starts_with-length (x ∷ rest) (codes "null"),
)

-- On any bytes, an end that the scanner gives to a value stands after its start and within the
-- input, so the slice between them is in range.
pub json_value_end-within :
    (input : Bytes) (start e : ℕ)
    → json_value_end input start ≡ ok e
    → (start < e) × (e ≤ length input)
json_value_end-within input start e h =
    ground (arith, value_end-within (drop start input) start e h, length-drop start input)

pub skip_json_ws-within :
    (input : Bytes) (i : ℕ)
    → (i ≤ skip_json_ws input i) × (i ≤ length input → skip_json_ws input i ≤ length input)
skip_json_ws-within input i =
    let (low, high) = end_while-within is_json_ws (drop i input) i in
    (low, λ h. omega (arith, high, length-drop i input))

pub next_is-within : (input : Bytes) (i byte : ℕ) → next_is input i byte ≡ true → i < length input
next_is-within input i byte h =
    omega (arith, starts_with-length (drop i input) (byte ∷ []) h, length-drop i input)

field_key-within :
    (input : Bytes) (i : ℕ) (key : Bytes) (value : ℕ)
    → field_key input i ≡ ok (key, value)
    → i < value
unfolding field_key
field_key-within input i key value h =
    let index = skip_json_ws input i in
    let (_, _, h₁) = bind-eq-ok (bail_if (next_is input index b'}') field_missing) _ h in
    let (_, _, h₂) = bind-eq-ok (guard (next_is input index b'"') key_expected) _ h₁ in
    let (_, _, h₃) = bind-eq-ok (decode_json_string_bytes (drop index input)) _ h₂ in
    let (size, _, h₄) = bind-eq-ok (json_string_end (drop index input)) _ h₃ in
    let colon = skip_json_ws input (size + index) in
    let (_, _, h₅) = bind-eq-ok (guard (next_is input colon b':') json_invalid) _ h₄ in
    ground (
      arith,
      h₅,
      skip_json_ws-within input i,
      skip_json_ws-within input (size + index),
      skip_json_ws-within input (colon + 1),
    )

after_value-within :
    (input : Bytes) (value j : ℕ)
    → after_value input value ≡ ok (next j)
    → (value < j) × (j ≤ length input)
unfolding after_value
after_value-within input value j h =
    let (end, e, h₁) = bind-eq-ok (json_value_end input value) _ h in
    let after = skip_json_ws input end in
    ground (
      arith,
      h₁,
      json_value_end-within input value end e,
      skip_json_ws-within input end,
      next_is-within input after b',',
    )

-- A round that does not end the loop moves on within the input.
pub field_round-next :
    (input field : Bytes) (i j : ℕ)
    → field_round input field i ≡ ok (next j)
    → (i < j) × (j ≤ length input)
unfolding field_round
field_round-next input field i j h =
    let ((key, value), e, h₁) = bind-eq-ok (field_key input i) _ h in
    ground (arith, h₁, field_key-within input i key value e, after_value-within input value j)

-- On any bytes, the loop over the fields ends with a result within its fuel, if the fuel is
-- positive and exceeds the number of bytes that are left.
pub field_loop-returns :
    (fuel : ℕ) (input field : Bytes) (i : ℕ)
    → length input < fuel + i
    → 0 < fuel
    → (r : Result JsonError ℕ) × (field_loop fuel input field i ≡ some r)
unfolding field_loop
field_loop-returns zero input field i l z = absurd (omega arith)
field_loop-returns (suc fuel) input field i l z = elim (Result-cases (field_round input field i)) [
  | inr (e, h) ↦ (err e, rw (h, field_loop) refl)
  | inl (found v, h) ↦ (ok v, rw (h, field_loop) refl)
  | inl (next j, h) ↦
      let (low, high) = field_round-next input field i j h in
      let (r, h') = field_loop-returns fuel input field j (omega arith) (omega arith) in
      (r, rw (h, field_loop) h')
]
