-- ===== src/Wire/Helper.antt =====
-- The pipe to the helper that runs a command, from crates/avault-cli/src/main.rs:
-- `write_agent_run_helper_frame`, `read_agent_run_helper_frame` and what they call. The pipe's
-- `write_all` and `read_exact` are the standard library's, on the bytes of the pipe.
use avault.Prelude.{
  ℕ, zero, suc, ◌^◌, Bool, true, false, ◌||◌, List, [], ◌∷◌, ◌++◌, ltb, leb, ◌==◌, length, take,
  drop,
}
use avault.Prelude.Bytes.{Bytes, codes, eq_bytes, contains_byte}
use avault.Prelude.Result.{Result, ok, ◌>>=◌, ◌>>◌, guard, bail_if, map_err}
use avault.BlindBox.{be_bytes}
use avault.Inject.{is_utf8}
use avault.Agent.Use.{OpenedSecret, validate_shell_name}
use avault.Wire.Frame.{from_be_bytes}
use avault.Json.{max_stdin_secret_bytes}

pub data HelperError : Type 0 where
  no_secrets too_many field_too_large write_failed : HelperError
  short_frame bad_magic bad_count bad_env_name value_too_large value_not_utf8 nul_byte : HelperError

abbrev pub max_agent_run_secrets : ℕ
max_agent_run_secrets = 1024

abbrev pub max_agent_run_env_name_bytes : ℕ
max_agent_run_env_name_bytes = 4096

abbrev pub agent_run_helper_magic : Bytes
agent_run_helper_magic = codes "avault-agent-run-env-v1" ++ 0 ∷ []

unfoldable pub validate_env_value : Bytes → Result HelperError (Unit {0})
validate_env_value value = do
  guard (is_utf8 value) value_not_utf8
  bail_if (contains_byte value 0) nul_byte

abbrev pub validate_env_name : Bytes → Result HelperError (Unit {0})
validate_env_name name = map_err (λ _. bad_env_name) (validate_shell_name name)

-- What is written, if no write fails.
unfoldable pub write_agent_run_helper_bytes : Bytes → Result HelperError Bytes
write_agent_run_helper_bytes bytes = do
  guard (ltb (length bytes) (2 ^ 32)) field_too_large
  ok (be_bytes 4 (length bytes) ++ bytes)

unfoldable pub write_secret : OpenedSecret → Result HelperError Bytes
write_secret secret = do
  validate_env_name secret.name
  validate_env_value secret.plaintext
  name ← write_agent_run_helper_bytes secret.name
  value ← write_agent_run_helper_bytes secret.plaintext
  ok (name ++ value)

unfoldable pub write_secrets : List OpenedSecret → Result HelperError Bytes
write_secrets [] = ok []
write_secrets (secret ∷ opened) = do
  first ← write_secret secret
  rest ← write_secrets opened
  ok (first ++ rest)

abbrev pub is_empty {ℓ} : {A : Type ℓ} → List A → Bool
is_empty [] = true
is_empty (x ∷ xs) = false

unfoldable pub write_agent_run_helper_frame : List OpenedSecret → Result HelperError Bytes
write_agent_run_helper_frame opened = do
  bail_if (is_empty opened) no_secrets
  guard (ltb (length opened) (2 ^ 32)) too_many
  secrets ← write_secrets opened
  ok (agent_run_helper_magic ++ (be_bytes 4 (length opened) ++ secrets))

-- `read_exact`: the bytes, and those after them.
unfoldable pub read_exact : ℕ → Bytes → Result HelperError (Bytes × Bytes)
read_exact size input = do
  guard (leb size (length input)) short_frame
  ok (take size input, drop size input)

unfoldable pub read_agent_run_helper_u32 : Bytes → Result HelperError (ℕ × Bytes)
read_agent_run_helper_u32 input = do (buf, rest) ← read_exact 4 input; ok (from_be_bytes buf, rest)

unfoldable pub read_name : Bytes → Result HelperError (Bytes × Bytes)
read_name input = do
  (name_len, rest) ← read_agent_run_helper_u32 input
  bail_if (name_len == 0 || ltb max_agent_run_env_name_bytes name_len) bad_env_name
  (name, rest') ← read_exact name_len rest
  guard (is_utf8 name) bad_env_name
  validate_env_name name
  ok (name, rest')

unfoldable pub read_value : Bytes → Result HelperError (Bytes × Bytes)
read_value input = do
  (value_len, rest) ← read_agent_run_helper_u32 input
  bail_if (ltb max_stdin_secret_bytes value_len) value_too_large
  (plaintext, rest') ← read_exact value_len rest
  validate_env_value plaintext
  ok (plaintext, rest')

unfoldable pub read_secrets : ℕ → Bytes → Result HelperError (List OpenedSecret × Bytes)
read_secrets zero input = ok ([], input)
read_secrets (suc count) input = do
  (name, rest) ← read_name input
  (plaintext, rest') ← read_value rest
  (opened, left) ← read_secrets count rest'
  ok (record { name = name; plaintext = plaintext } ∷ opened, left)

-- The secrets, and the bytes that are left.
unfoldable pub read_agent_run_helper_frame : Bytes → Result HelperError (List OpenedSecret × Bytes)
read_agent_run_helper_frame input = do
  (magic, rest) ← read_exact (length agent_run_helper_magic) input
  guard (eq_bytes magic agent_run_helper_magic) bad_magic
  (count, rest') ← read_agent_run_helper_u32 rest
  bail_if (count == 0 || ltb max_agent_run_secrets count) bad_count
  read_secrets count rest'
