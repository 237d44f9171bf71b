-- ===== src/Json/Strings.antt =====
-- JSON strings: `decode_json_string_bytes` and its escapes, and `json_string_end`.
use avault.Prelude.{
  ℕ, zero, suc, ◌+◌, ◌-◌, ◌*◌, ◌/◌, ◌%◌, Bool, true, false, not, ◌&&◌, ◌||◌, Option, none, some, [],
  ◌∷◌, ◌++◌, ltb, ◌==◌, if◌then◌else◌, within, length, drop,
}
use avault.Prelude.Bytes.{Bytes, starts_with, is_digit}
use avault.Prelude.Result.{Result, ok, err, ◌>>=◌, ◌>>◌, guard, bail_if, or_fail}
use avault.Json.{
  JsonError, string_expected, escape_unterminated, short_escape, bad_unicode, bad_surrogate,
  bad_escape, control_byte, too_large, string_unterminated, max_stdin_secret_bytes,
}

unfoldable pub hex_value : ℕ → Result JsonError ℕ
hex_value byte =
    if is_digit byte
    then ok (byte - b'0')
    else if within b'a' b'f' byte
    then ok (byte - b'a' + 10)
    else if within b'A' b'F' byte
    then ok (byte - b'A' + 10)
    else err bad_unicode

-- `value << 4` of a `u16`, with the four bits of a digit.
abbrev pub shifted : ℕ → ℕ → ℕ
shifted value digit = value * 16 % 65536 + digit

unfoldable pub decode_hex_quad : Bytes → Result JsonError ℕ
unfolding hex_value
decode_hex_quad (a ∷ b ∷ c ∷ d ∷ rest) = do
  w ← hex_value a
  x ← hex_value b
  y ← hex_value c
  z ← hex_value d
  ok (shifted (shifted (shifted (shifted 0 w) x) y) z)
decode_hex_quad _ = err short_escape

-- `char::from_u32`.
unfoldable pub from_u32 : ℕ → Option ℕ
from_u32 c = if within 0xD800 0xDFFF c || ltb 0x10FFFF c then none else some c

-- The scalar value, and the number of bytes read.
unfoldable pub decode_json_unicode_escape : Bytes → Result JsonError (ℕ × ℕ)
decode_json_unicode_escape input = do
  first ← decode_hex_quad input
  if within 0xD800 0xDBFF first
      then (do
        bail_if (not (starts_with (drop 4 input) (b'\\' ∷ b'u' ∷ []))) bad_surrogate
        second ← decode_hex_quad (drop 6 input)
        bail_if (not (within 0xDC00 0xDFFF second)) bad_surrogate
        let scalar = 0x10000 + (first - 0xD800) * 1024 + (second - 0xDC00)
        scalar ← or_fail (from_u32 scalar) bad_unicode
        ok (scalar, 10))
      else if within 0xDC00 0xDFFF first
      then err bad_surrogate
      else (do scalar ← or_fail (from_u32 first) bad_unicode; ok (scalar, 4))

-- `char::encode_utf8`.
unfoldable pub encode_utf8 : ℕ → Bytes
encode_utf8 c =
    if ltb c 0x80
    then c ∷ []
    else if ltb c 0x800
    then (192 + c / 64) ∷ (128 + c % 64) ∷ []
    else if ltb c 0x10000
    then (224 + c / 4096) ∷ (128 + c / 64 % 64) ∷ (128 + c % 64) ∷ []
    else (240 + c / 262144) ∷ (128 + c / 4096 % 64) ∷ (128 + c / 64 % 64) ∷ (128 + c % 64) ∷ []

-- What an escape stands for, from the byte after its backslash on, and the bytes to skip.
unfoldable pub escape_piece : Bytes → Result JsonError (Bytes × ℕ)
escape_piece [] = err escape_unterminated
escape_piece (escaped ∷ rest) =
    if escaped == b'"' || escaped == b'\\' || escaped == b'/'
    then ok (escaped ∷ [], 1)
    else if escaped == b'b'
    then ok (8 ∷ [], 1)
    else if escaped == b'f'
    then ok (12 ∷ [], 1)
    else if escaped == b'n'
    then ok (10 ∷ [], 1)
    else if escaped == b'r'
    then ok (13 ∷ [], 1)
    else if escaped == b't'
    then ok (9 ∷ [], 1)
    else if escaped == b'u'
    then (do
      (scalar, consumed) ← decode_json_unicode_escape rest
      ok (encode_utf8 scalar, suc consumed))
    else err bad_escape

unfoldable pub string_piece : ℕ → Bytes → Result JsonError (Bytes × ℕ)
unfolding escape_piece
string_piece byte rest =
    if byte == b'\\'
    then escape_piece rest
    else if ltb byte 0x20
    then err control_byte
    else ok (byte ∷ [], 0)

unfoldable pub decode_from : ℕ → Bytes → Bytes → Result JsonError Bytes
decode_from skip [] out = err string_unterminated
decode_from (suc skip) (byte ∷ rest) out = decode_from skip rest out
decode_from zero (byte ∷ rest) out = elim (byte == b'"') [
  | true ↦ ok out
  | false ↦ do
    (pushed, skip) ← string_piece byte rest
    bail_if (ltb max_stdin_secret_bytes (length (out ++ pushed))) too_large
    decode_from skip rest (out ++ pushed)
]

abbrev pub open_quote : Bytes → Bool
open_quote input = starts_with input (b'"' ∷ [])

unfoldable pub decode_json_string_bytes : Bytes → Result JsonError Bytes
decode_json_string_bytes input = do guard (open_quote input) string_expected; decode_from 1 input []

-- After a backslash `escaped` is set.
unfoldable pub string_end_from : Bool → Bytes → ℕ → Result JsonError ℕ
string_end_from true [] index = err escape_unterminated
string_end_from false [] index = err string_unterminated
string_end_from true (byte ∷ rest) index = string_end_from false rest (index + 1)
string_end_from false (byte ∷ rest) index = elim (byte == b'"') [
  | true ↦ ok (index + 1)
  | false ↦ elim (not (byte == b'\\') && ltb byte 0x20) [
    | true ↦ err control_byte
    | false ↦ string_end_from (byte == b'\\') rest (index + 1)
  ]
]

unfoldable pub json_string_end : Bytes → Result JsonError ℕ
json_string_end input = do
  guard (open_quote input) string_expected
  string_end_from false (drop 1 input) 1
