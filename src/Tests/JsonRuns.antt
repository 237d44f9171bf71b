-- ===== src/Tests/JsonRuns.antt =====
-- The JSON scanner on concrete inputs.
use avault.Prelude.{
  ℕ, ◌≤◌, ◌<◌, ◌≡◌, refl, true, false, some, List, [], ◌∷◌, ◌++◌, map, arith, length,
}
use avault.Prelude.Bytes.{Bytes, codes, eq_bytes, starts_with}
use avault.Prelude.Result.{Result, ok}
use avault.Json.{JsonError}
use avault.Json.Strings.{
  hex_value, decode_hex_quad, from_u32, decode_json_unicode_escape, encode_utf8, escape_piece,
  string_piece, decode_from, decode_json_string_bytes, string_end_from, json_string_end,
}
use avault.Json.Values.{end_while, next_stack, compound_from, value_end, json_value_end}
use avault.Json.Fields.{
  field_key, after_value, field_round, field_loop, find_json_field_value,
  import_passphrase_from_json, blob_slice,
}
use avault.Json.Spelling.{
  Cases, newline, Piece, plain, short, unicode, meaning, meanings, print_string,
}
use avault.Json.Decode.{limited, decode_json_string_bytes-print_string}
use avault.Json.Tree.{
  Members, boolean, number, string, array, object, no_items, item, no_members, member, print,
  AreMembers,
}
use avault.Json.Lookup.{lookup, KeysFit}
use avault.Json.Bounds.{json_value_end-within, field_loop-returns}
use avault.Json.Object.{passphrase_of, text_of, key_import-print}

abbrev doc : Bytes
doc =
    codes "{ \"blob\" : {\"v\":[1,\"}\\\"]\"]}, \"passphrase\":\"a\\n\\u20ac\\ud83d\\uDE00\\\\\" }"

imports :
    import_passphrase_from_json doc
    ≡ ok (97 ∷ 10 ∷ 226 ∷ 130 ∷ 172 ∷ 240 ∷ 159 ∷ 152 ∷ 128 ∷ 92 ∷ [])
unfolding import_passphrase_from_json find_json_field_value field_loop field_round field_key
    after_value value_end compound_from next_stack end_while json_string_end string_end_from
    decode_json_string_bytes decode_from string_piece escape_piece decode_json_unicode_escape
    decode_hex_quad hex_value from_u32 encode_utf8 starts_with eq_bytes
imports = refl

abbrev mixed : Cases
mixed = record { first = true; second = false; third = true; fourth = false }

abbrev word : List Piece
word = plain 97 ∷ short newline ∷ unicode mixed mixed 0x20AC ∷ unicode mixed mixed 0x1F600 ∷ []

abbrev pub key_of : Bytes → List Piece
key_of cs = map plain cs

abbrev members : Members
members =
    member (key_of (codes "blob"))
      (array (item (number (codes "1")) (item (boolean true) no_items)))
      (member (key_of (codes "passphrase")) (string word) no_members)

abbrev ws : Bytes
ws = 10 ∷ 32 ∷ []

abbrev text : Bytes
text = [] ++ (print ws (object members) ++ [])

AreMembers-members : AreMembers members
AreMembers-members = ground arith

KeysFit-members : KeysFit members
unfolding meanings meaning
KeysFit-members = (omega arith, (omega arith, tt))

key_import-print_example :
    (import_passphrase_from_json text ≡ passphrase_of (lookup (codes "passphrase") members))
    × (blob_slice text ≡ text_of ws (lookup (codes "blob") members))
key_import-print_example =
    key_import-print ws [] [] members refl refl AreMembers-members KeysFit-members

decode_json_string_bytes-print_string_example :
    (decode_json_string_bytes (print_string word ++ codes ", 1") ≡ limited (meanings word))
    × (json_string_end (print_string word ++ codes ", 1") ≡ ok (length (print_string word)))
decode_json_string_bytes-print_string_example =
    decode_json_string_bytes-print_string word (codes ", 1") (omega arith)

value_end_doc : json_value_end (codes "[1,[]] ,") 0 ≡ ok 6
unfolding value_end compound_from next_stack json_string_end starts_with
value_end_doc = refl

json_value_end-within_example : (0 < 6) × (6 ≤ length (codes "[1,[]] ,"))
json_value_end-within_example = json_value_end-within (codes "[1,[]] ,") 0 6 value_end_doc

field_loop-returns_example :
    (r : Result JsonError ℕ) × (field_loop 9 (codes "[1,[]] ,") (codes "k") 0 ≡ some r)
field_loop-returns_example =
    field_loop-returns 9 (codes "[1,[]] ,") (codes "k") 0 (omega arith) (omega arith)
