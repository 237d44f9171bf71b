-- ===== src/Json/Object.antt =====
-- `find_json_field_value` on the text of an object, and the passphrase and the blob of `key import`.
use avault.Prelude.{
  suc, ◌+◌, ◌-◌, ◌≡◌, refl, ap, ◌∙◌, true, false, Option, none, some, List, [], ◌∷◌, ◌++◌,
  append_assoc, arith, ◌==◌, if◌then◌else◌, length, drop, all, drop-append, take-append,
}
use avault.Prelude.Bytes.{Bytes, codes, eq_bytes}
use avault.Prelude.Result.{Result, ok, err}
use avault.Json.{JsonError, field_missing, passphrase_not_string}
use avault.Json.Values.{is_json_ws, value_end, json_value_end}
use avault.Json.Fields.{
  field_loop, in_fuel, find_json_field_value, import_passphrase_from_json, blob_slice,
}
use avault.Json.Spelling.{Piece, meanings}
use avault.Json.Decode.{limited, decode_json_string_bytes-print_string}
use avault.Json.Tree.{
  Json, Members, null, boolean, number, string, array, object, no_members, member, print,
  print_members, IsJson, AreMembers,
}
use avault.Json.Ends.{value_end-print}
use avault.Json.Field.{drop-past, skip_json_ws-past, next_is-here, quote_first}
use avault.Json.Lookup.{
  lookup, KeysFit, Finds, after_text-print_members, fields, field_loop-print, empty-missing,
}
use native.Mathlib.Nat.{zero-add}

module _ (ws : Bytes) (ws-Space : all is_json_ws ws ≡ true) where
  opened :
      (lead body field : Bytes)
      → all is_json_ws lead ≡ true
      → let input = lead ++ (b'{' ∷ body) in
        (find_json_field_value input field
          ≡ in_fuel (field_loop (suc (length input)) input field (length lead + 1)))
        × (drop (length lead + 1) input ≡ body)
  unfolding find_json_field_value
  opened lead body field s =
      let input = lead ++ (b'{' ∷ body) in
      let skipped =
        skip_json_ws-past input 0 lead (b'{' ∷ body) refl s refl ∙ zero-add (length lead) in
      let here = drop-append lead (b'{' ∷ body) in
      let brace = next_is-here input (length lead) b'{' body b'{' here in
      (rw (skipped, brace) refl, drop-past input (length lead) (b'{' ∷ []) body here)

  text_eq :
      (k : List Piece) (v : Json) (ms : Members) (trail : Bytes)
      → (print_members ws true (member k v ms) ++ b'}' ∷ []) ++ trail
        ≡ fields ws k v ms (b'}' ∷ trail)
  unfolding print
  text_eq k v ms trail = simp (append_assoc, after_text-print_members ws ms (b'}' ∷ trail)) refl

  -- The scanner finds the first member of that name in the text of an object, or none.
  pub find_json_field_value-print :
      (lead trail field : Bytes) (ms : Members)
      → all is_json_ws lead ≡ true
      → AreMembers ms
      → KeysFit ms
      → Finds ws
          (lead ++ (print ws (object ms) ++ trail))
          (lookup field ms)
          (find_json_field_value (lead ++ (print ws (object ms) ++ trail)) field)
  unfolding print lookup
  find_json_field_value-print lead trail field no_members s hm fit =
      let body = (ws ++ b'}' ∷ []) ++ trail in
      let input = lead ++ (b'{' ∷ body) in
      let (e, d) = opened lead body field s in
      e
      ∙ ap in_fuel (
          empty-missing ws ws-Space input field (length lead + 1) (length input) trail
            (d ∙ append_assoc ws (b'}' ∷ []) trail))
  find_json_field_value-print lead trail field (member k v ms) s hm fit =
      let body = (print_members ws true (member k v ms) ++ b'}' ∷ []) ++ trail in
      let input = lead ++ (b'{' ∷ body) in
      let (e, d) = opened lead body field s in
      rw e (
        field_loop-print ws ws-Space k v ms (suc (length input)) input field (length lead + 1) trail
          (d ∙ text_eq k v ms trail) hm fit (omega arith) (omega arith))

abbrev pub passphrase_of : Option Json → Result JsonError Bytes
passphrase_of none = err field_missing
passphrase_of (some (string ps)) = limited (meanings ps)
passphrase_of (some _) = err passphrase_not_string

abbrev pub text_of : Bytes → Option Json → Result JsonError Bytes
text_of ws none = err field_missing
text_of ws (some v) = ok (print ws v)

abbrev IsFound : Option Json → Type 0
IsFound none = Unit
IsFound (some v) = IsJson v

lookup-IsFound : (field : Bytes) (ms : Members) → AreMembers ms → IsFound (lookup field ms)
unfolding lookup
lookup-IsFound field no_members h = tt
lookup-IsFound field (member k v ms) (hk, h, hs) =
    let rest = lookup-IsFound field ms hs in
    elim (eq_bytes (meanings k) field) as (λ b. IsFound (if b then some v else lookup field ms)) [
      | true ↦ h
      | false ↦ rest
    ]

passphrase_at :
    (ws input : Bytes) (o : Option Json)
    → IsFound o
    → Finds ws input o (find_json_field_value input (codes "passphrase"))
    → import_passphrase_from_json input ≡ passphrase_of o
unfolding import_passphrase_from_json print
passphrase_at ws input none h f = rw f refl
passphrase_at ws input (some null) h (i, more, e, d, _) =
    rw (e, next_is-here input i b'n' _ b'"' d) refl
passphrase_at ws input (some (boolean true)) h (i, more, e, d, _) =
    rw (e, next_is-here input i b't' _ b'"' d) refl
passphrase_at ws input (some (boolean false)) h (i, more, e, d, _) =
    rw (e, next_is-here input i b'f' _ b'"' d) refl
passphrase_at ws input (some (number [])) h (i, more, e, d, _) = absurd h
passphrase_at ws input (some (number (c ∷ cs))) (h, hs) (i, more, e, d, _) =
    let quote : (c == b'"') ≡ false = ground arith in
    rw (e, next_is-here input i c _ b'"' d, quote) refl
passphrase_at ws input (some (string ps)) h (i, more, e, d, _) =
    let (body, q) = quote_first ps more in
    rw (e, next_is-here input i b'"' body b'"' (d ∙ q), d)
      (decode_json_string_bytes-print_string ps more h).0
passphrase_at ws input (some (array xs)) h (i, more, e, d, _) =
    rw (e, next_is-here input i b'[' _ b'"' d) refl
passphrase_at ws input (some (object ms)) h (i, more, e, d, _) =
    rw (e, next_is-here input i b'{' _ b'"' d) refl

blob_at :
    (ws input field : Bytes) (o : Option Json)
    → all is_json_ws ws ≡ true
    → IsFound o
    → Finds ws input o (find_json_field_value input (codes "blob"))
    → blob_slice input ≡ text_of ws o
unfolding blob_slice
blob_at ws input field none s h f = rw f refl
blob_at ws input field (some v) s h (i, more, e, d, stop) =
    let ended : json_value_end input i ≡ ok (i + length (print ws v)) =
      ap (λ zs. value_end zs i) d ∙ value_end-print ws s v more i h stop in
    let size : i + length (print ws v) - i ≡ length (print ws v) = omega arith in
    rw (e, ended, size, d) (ap ok (take-append (print ws v) more))

-- On the text of any JSON object, with white space before it, the same white space at every place
-- within its brackets, and any bytes after it, the scanner that reads the request of a key import
-- looks the first member of the name up: it decodes the passphrase, refuses a missing one and one
-- that is no string, and takes just the text of the blob, if keys are within the limit on the size
-- of strings.
pub key_import-print :
    (ws lead trail : Bytes) (ms : Members)
    → all is_json_ws ws ≡ true
    → all is_json_ws lead ≡ true
    → AreMembers ms
    → KeysFit ms
    → let input = lead ++ (print ws (object ms) ++ trail) in
      (import_passphrase_from_json input ≡ passphrase_of (lookup (codes "passphrase") ms))
      × (blob_slice input ≡ text_of ws (lookup (codes "blob") ms))
key_import-print ws lead trail ms s l hm fit =
    let input = lead ++ (print ws (object ms) ++ trail) in
    let phrase = codes "passphrase" in
    (
      passphrase_at ws input (lookup phrase ms) (lookup-IsFound phrase ms hm)
          (find_json_field_value-print ws s lead trail phrase ms l hm fit),
      blob_at ws input phrase (lookup (codes "blob") ms) s (lookup-IsFound (codes "blob") ms hm)
          (find_json_field_value-print ws s lead trail (codes "blob") ms l hm fit),
    )
