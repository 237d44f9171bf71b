-- ===== src/Json/Fields.antt =====
-- The fields of the object: `find_json_field_value`, `import_passphrase_from_json`, and the bytes
-- that `import_blob_from_json` gives to serde_json.
use avault.Prelude.{
  Option, none, some, ℕ, zero, suc, ◌+◌, ◌-◌, Bool, [], ◌∷◌, if◌then◌else◌, length, take, drop,
}
use avault.Prelude.Bytes.{Bytes, codes, eq_bytes, starts_with}
use avault.Prelude.Result.{Result, ok, err, ◌>>=◌, ◌>>◌, guard, bail_if}
use avault.Json.{
  JsonError, object_expected, field_missing, key_expected, json_invalid, passphrase_not_string,
  out_of_fuel,
}
use avault.Json.Strings.{decode_json_string_bytes, json_string_end}
use avault.Json.Values.{skip_json_ws, json_value_end}

abbrev pub next_is : Bytes → ℕ → ℕ → Bool
next_is input index byte = starts_with (drop index input) (byte ∷ [])

-- What a round of the loop over the fields finds: the value, or the index of the next round.
pub data Round : Type 0 where
  found next : ℕ → Round

-- The key of the field from the index on, and the index of its value.
unfoldable pub field_key : Bytes → ℕ → Result JsonError (Bytes × ℕ)
field_key input start = do
  let index = skip_json_ws input start
  bail_if (next_is input index b'}') field_missing
  guard (next_is input index b'"') key_expected
  key ← decode_json_string_bytes (drop index input)
  size ← json_string_end (drop index input)
  let colon = skip_json_ws input (size + index)
  guard (next_is input colon b':') json_invalid
  ok (key, skip_json_ws input (colon + 1))

-- What follows a value that is not asked for.
unfoldable pub after_value : Bytes → ℕ → Result JsonError Round
after_value input value = do
  end ← json_value_end input value
  let after = skip_json_ws input end
  if next_is input after b','
      then ok (next (after + 1))
      else if next_is input after b'}'
      then err field_missing
      else err json_invalid

unfoldable pub field_round : Bytes → Bytes → ℕ → Result JsonError Round
field_round input field start = do
  (key, value) ← field_key input start
  if eq_bytes key field then ok (found value) else after_value input value

-- `none` where the fuel runs out.
unfoldable pub field_loop : ℕ → Bytes → Bytes → ℕ → Option (Result JsonError ℕ)
field_loop zero input field index = none
field_loop (suc fuel) input field index = elim (field_round input field index) [
  | err e ↦ some (err e)
  | ok (found value) ↦ some (ok value)
  | ok (next index') ↦ field_loop fuel input field index'
]

abbrev pub in_fuel : Option (Result JsonError ℕ) → Result JsonError ℕ
in_fuel none = err out_of_fuel
in_fuel (some r) = r

-- A round reads one byte at least.
unfoldable pub find_json_field_value : Bytes → Bytes → Result JsonError ℕ
find_json_field_value input field = do
  let index = skip_json_ws input 0
  guard (next_is input index b'{') object_expected
  in_fuel (field_loop (suc (length input)) input field (index + 1))

unfoldable pub import_passphrase_from_json : Bytes → Result JsonError Bytes
import_passphrase_from_json input = do
  start ← find_json_field_value input (codes "passphrase")
  guard (next_is input start b'"') passphrase_not_string
  decode_json_string_bytes (drop start input)

-- The bytes that serde_json reads as the blob.
unfoldable pub blob_slice : Bytes → Result JsonError Bytes
blob_slice input = do
  start ← find_json_field_value input (codes "blob")
  end ← json_value_end input start
  ok (take (end - start) (drop start input))
