-- ===== src/Json.antt =====
-- The JSON of `key import`, read without a copy of its secret, from
-- crates/avault-cli/src/main.rs: `find_json_field_value`, `decode_json_string_bytes`,
-- `json_string_end`, `json_value_end` and what they call. An index of the source is that number,
-- beside the bytes from it on; `index += n` skips `n` of them.
pub mod Strings
pub mod Values
pub mod Fields
pub mod Bounds
pub mod Skip
pub mod Ends
pub mod Field
pub mod Lookup
pub mod Object
pub mod Spelling
pub mod StringEnds
pub mod Decode
pub mod Tree
use avault.Prelude.{ℕ}

pub data JsonError : Type 0 where
  string_expected escape_unterminated short_escape bad_unicode bad_surrogate bad_escape : JsonError
  control_byte too_large string_unterminated : JsonError
  object_expected field_missing key_expected json_invalid : JsonError
  value_missing bad_value bad_object bad_array value_unterminated : JsonError
  passphrase_not_string : JsonError
  -- the loop over the fields did not end within its fuel
  out_of_fuel : JsonError

abbrev pub max_stdin_secret_bytes : ℕ
max_stdin_secret_bytes = 1048576
