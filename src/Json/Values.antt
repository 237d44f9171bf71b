-- ===== src/Json/Values.antt =====
-- JSON values: `json_value_end`, `json_compound_end`, `json_scalar_end` and `skip_json_ws`.
use avault.Prelude.{
  ℕ, zero, suc, ◌+◌, ◌-◌, Bool, true, false, ◌||◌, [], ◌∷◌, ◌==◌, if◌then◌else◌, drop,
}
use avault.Prelude.Bytes.{Bytes, codes, starts_with, is_upper, is_lower, is_digit}
use avault.Prelude.Result.{Result, ok, err, ◌>>=◌}
use avault.Json.{JsonError, value_missing, bad_value, bad_object, bad_array, value_unterminated}
use avault.Json.Strings.{json_string_end}

abbrev pub is_scalar_byte : ℕ → Bool
is_scalar_byte c = c == b'-' || c == b'+' || c == b'.' || is_digit c || is_lower c || is_upper c

abbrev pub is_json_ws : ℕ → Bool
is_json_ws c = c == 32 || c == 10 || c == 13 || c == 9

-- The index after the bytes that pass a test: `while matches!(input.get(index), ..)`.
unfoldable pub end_while : (ℕ → Bool) → Bytes → ℕ → ℕ
end_while p [] index = index
end_while p (byte ∷ rest) index = elim (p byte) [
  | true ↦ end_while p rest (index + 1)
  | false ↦ index
]

abbrev pub json_scalar_end : Bytes → ℕ → ℕ
json_scalar_end input index = end_while is_scalar_byte (drop index input) index

abbrev pub skip_json_ws : Bytes → ℕ → ℕ
skip_json_ws input index = end_while is_json_ws (drop index input) index

-- `stack.pop()` is the bracket, and the stack that is left.
abbrev pub popped : ℕ → JsonError → Bytes → Result JsonError Bytes
popped bracket e [] = err e
popped bracket e (top ∷ stack) = if top == bracket then ok stack else err e

abbrev pub bracket : ℕ → Bool
bracket byte = byte == b'{' || byte == b'['

-- The stack after a byte outside strings.
unfoldable pub next_stack : ℕ → Bytes → Result JsonError Bytes
next_stack byte stack =
    if bracket byte
    then ok (byte ∷ stack)
    else if byte == b'}'
    then popped b'{' bad_object stack
    else if byte == b']'
    then popped b'[' bad_array stack
    else ok stack

abbrev pub closes : ℕ → Bytes → Bool
closes byte [] = byte == b'}' || byte == b']'
closes byte (top ∷ stack) = false

unfoldable pub compound_from : ℕ → Bytes → ℕ → Bytes → Result JsonError ℕ
compound_from skip [] index stack = err value_unterminated
compound_from (suc skip) (byte ∷ rest) index stack = compound_from skip rest (index + 1) stack
compound_from zero (byte ∷ rest) index stack = elim (byte == b'"') [
  | true ↦ do size ← json_string_end (byte ∷ rest); compound_from (size - 1) rest (index + 1) stack
  | false ↦ do
    left ← next_stack byte stack
    elim (closes byte left) [
      | true ↦ ok (index + 1)
      | false ↦ compound_from zero rest (index + 1) left
    ]
]

-- From the bracket, which stands at the index, on.
abbrev pub compound_end : Bytes → ℕ → Result JsonError ℕ
compound_end [] index = err value_missing
compound_end (byte ∷ rest) index = compound_from zero rest (index + 1) (byte ∷ [])

abbrev pub json_compound_end : Bytes → ℕ → Result JsonError ℕ
json_compound_end input start = compound_end (drop start input) start

-- The end of the value that starts at the index.
unfoldable pub value_end : Bytes → ℕ → Result JsonError ℕ
value_end [] start = err value_missing
value_end (byte ∷ rest) start =
    if byte == b'"'
    then (do size ← json_string_end (byte ∷ rest); ok (start + size))
    else if bracket byte
    then compound_end (byte ∷ rest) start
    else if byte == b'-' || is_digit byte
    then ok (end_while is_scalar_byte (byte ∷ rest) start)
    else if starts_with (byte ∷ rest) (codes "true")
    then ok (start + 4)
    else if starts_with (byte ∷ rest) (codes "false")
    then ok (start + 5)
    else if starts_with (byte ∷ rest) (codes "null")
    then ok (start + 4)
    else err bad_value

abbrev pub json_value_end : Bytes → ℕ → Result JsonError ℕ
json_value_end input start = value_end (drop start input) start
