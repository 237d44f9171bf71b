-- ===== src/Inject.antt =====
-- The file of `deliver inject`, from crates/avault-cli/src/main.rs: `validate_inject_request`,
-- `render_inject_file`, `render_dotenv`, `render_json`, `write_shell_quoted` and `secret_utf8`.
-- serde_json's strings are a parameter. Characters are their UTF-8 bytes, of which none but the
-- apostrophe itself is its code.
pub mod Dotenv
use avault.Prelude.{
  ℕ, zero, suc, Bool, true, false, not, ◌&&◌, ◌||◌, Option, none, some, List, [], ◌∷◌, ◌++◌, ltb,
  ◌==◌, if◌then◌else◌, within,
}
use avault.Prelude.Bytes.{Bytes, codes, eq_bytes, contains_byte, to_ascii_lowercase}
use avault.Prelude.Result.{Result, ok, err, ◌>>=◌, ◌>>◌, bail_if}
use avault.Agent.Use.{NamedSecretInput, OpenedSecret}

pub data InjectError : Type 0 where
  no_secret unknown_format nul_byte not_utf8 : InjectError

-- How many bytes follow the first of a character, and the range of the next one.
abbrev pub utf8_start : ℕ → Option (ℕ × ℕ × ℕ)
utf8_start c =
    if ltb c 128
    then some (0, 0, 0)
    else if within 194 223 c
    then some (1, 128, 191)
    else if c == 224
    then some (2, 160, 191)
    else if c == 237
    then some (2, 128, 159)
    else if within 225 239 c
    then some (2, 128, 191)
    else if c == 240
    then some (3, 144, 191)
    else if within 241 243 c
    then some (3, 128, 191)
    else if c == 244
    then some (3, 128, 143)
    else none

-- `str::from_utf8`, with the bytes that the current character still needs.
unfoldable pub utf8_from : ℕ → ℕ → ℕ → Bytes → Bool
utf8_from zero low high [] = true
utf8_from (suc need) low high [] = false
utf8_from zero low high (c ∷ cs) = elim (utf8_start c) [
  | none ↦ false
  | some (need, low', high') ↦ utf8_from need low' high' cs
]
utf8_from (suc need) low high (c ∷ cs) =
    let rest = utf8_from need 128 191 cs in within low high c && rest

abbrev pub is_utf8 : Bytes → Bool
is_utf8 bytes = utf8_from 0 0 0 bytes

unfoldable pub secret_utf8 : Bytes → Result InjectError Bytes
secret_utf8 bytes = do
  bail_if (contains_byte bytes 0) nul_byte
  bail_if (not (is_utf8 bytes)) not_utf8
  ok bytes

-- The normalized format.
unfoldable pub validate_inject_request : List NamedSecretInput → Bytes → Result InjectError Bytes
validate_inject_request [] format = err no_secret
validate_inject_request (s ∷ secrets) format =
    let lower = to_ascii_lowercase format in
    if eq_bytes lower (codes "dotenv") || eq_bytes lower (codes "json")
    then ok lower
    else err unknown_format

abbrev pub escaped : ℕ → Bytes
escaped c = if c == 39 then 39 ∷ 92 ∷ 39 ∷ 39 ∷ [] else c ∷ []

abbrev pub shell_escape : Bytes → Bytes
shell_escape [] = []
shell_escape (c ∷ cs) = escaped c ++ shell_escape cs

-- What `write_shell_quoted` adds to the output.
unfoldable pub write_shell_quoted : Bytes → Bytes
write_shell_quoted value = 39 ∷ (shell_escape value ++ 39 ∷ [])

unfoldable pub render_dotenv : List OpenedSecret → Result InjectError Bytes
render_dotenv [] = ok []
render_dotenv (secret ∷ secrets) = do
  value ← secret_utf8 secret.plaintext
  rest ← render_dotenv secrets
  ok (secret.name ++ (61 ∷ (write_shell_quoted value ++ (10 ∷ rest))))

module _ (json_string : Bytes → Bytes) where
  abbrev json_line : OpenedSecret → Bytes → List OpenedSecret → Bytes
  json_line secret value [] =
      codes "  " ++ (json_string secret.name ++ (codes ": " ++ (json_string value ++ 10 ∷ [])))
  json_line secret value (s ∷ secrets) =
      codes "  "
      ++ (json_string secret.name ++ (codes ": " ++ (json_string value ++ (44 ∷ 10 ∷ []))))

  json_lines : List OpenedSecret → Result InjectError Bytes
  json_lines [] = ok []
  json_lines (secret ∷ secrets) = do
    value ← secret_utf8 secret.plaintext
    rest ← json_lines secrets
    ok (json_line secret value secrets ++ rest)

  unfoldable pub render_json : List OpenedSecret → Result InjectError Bytes
  unfolding json_lines
  render_json secrets = do lines ← json_lines secrets; ok (123 ∷ 10 ∷ (lines ++ (125 ∷ 10 ∷ [])))

  unfoldable pub render_inject_file : List OpenedSecret → Bytes → Result InjectError Bytes
  render_inject_file secrets format =
      if eq_bytes format (codes "dotenv")
      then render_dotenv secrets
      else if eq_bytes format (codes "json")
      then render_json secrets
      else err unknown_format
