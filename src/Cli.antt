-- ===== src/Cli.antt =====
-- The command line, from crates/avault-cli/src/main.rs. An argument (`OsString`) is its bytes, and
-- `to_str` gives them where they are UTF-8.
pub mod Options
pub mod Agent
pub mod Commands
use avault.Prelude.{◌≡◌, refl, Bool, Option, none, some, ◌||◌, if◌then◌else◌}
use avault.Prelude.Bytes.{Bytes, codes, eq_bytes}
use avault.Prelude.Result.{Result, ok, err}
use avault.Inject.{is_utf8}

pub data CliError : Type 0 where
  unknown_store store_not_utf8 not_utf8 unknown_option : CliError
  repeated value_required name_required env_required : CliError
  timeout_not_integer timeout_not_positive unlock_requires_passphrase home_not_set : CliError

pub data StoreSelection : Type 0 where
  auto keychain tpm file file_passphrase : StoreSelection

abbrev pub to_str : Bytes → Option Bytes
to_str arg = if is_utf8 arg then some arg else none

abbrev pub is_text : Bytes → Bytes → Bool
is_text value text = eq_bytes value text

unfoldable pub parse_store : Bytes → Result CliError StoreSelection
parse_store value =
    if is_text value (codes "auto")
    then ok auto
    else if is_text value (codes "keychain")
    then ok keychain
    else if is_text value (codes "tpm") || is_text value (codes "tpm2")
    then ok tpm
    else if is_text value (codes "file")
    then ok file
    else if is_text value (codes "file-passphrase")
        || is_text value (codes "file+passphrase")
        || is_text value (codes "passphrase")
    then ok file_passphrase
    else err unknown_store

-- The name in the usage text.
abbrev pub store_name : StoreSelection → Bytes
store_name auto = codes "auto"
store_name keychain = codes "keychain"
store_name tpm = codes "tpm"
store_name file = codes "file"
store_name file_passphrase = codes "file-passphrase"

pub parse_store-store_name : (store : StoreSelection) → parse_store (store_name store) ≡ ok store
unfolding parse_store eq_bytes
parse_store-store_name auto = refl
parse_store-store_name keychain = refl
parse_store-store_name tpm = refl
parse_store-store_name file = refl
parse_store-store_name file_passphrase = refl
