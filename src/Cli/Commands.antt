-- ===== src/Cli/Commands.antt =====
-- The sub-commands of the command line, from crates/avault-cli/src/main.rs: the store that a command
-- uses and the readers of its input. The master key store is an interface over its own state; what a
-- command prints is part of its result. serde_json, the child process and the HKDF are functions.
pub mod OneShot
pub mod AsAgent
pub mod Key
pub mod Transfer
pub mod Vault
pub mod Deliver
pub mod Loads
pub mod Stores
use avault.Prelude.{Bool, Option, none, some, List}
use avault.Prelude.Bytes.{Bytes}
use avault.Prelude.Result.{Result, ok, err, map_err}
use avault.Prelude.Action.{Action, done, ◌>>=◌}
use avault.Core.Crypto.{CoreError}
use avault.Core.Signing.{SignError}
use avault.BlindBox.{BlindBoxError}
use avault.Store.{Backend}
use avault.Store
use avault.Json.{JsonError, max_stdin_secret_bytes}
use avault.Wire.{ReadEvent}
use avault.Wire.Input.{
  InputError, Reading, read_zeroizing_to_cap, read_passphrase_line, max_stdin_envelope_bytes,
}
use avault.Inject.{InjectError}
use avault.Fetch.{FetchError}
use avault.Fetch.Execute.{ExecuteError}
use avault.Agent.GrantRequest.{RequestError}
use avault.Wire.Helper.{HelperError}
use avault.Agent.Use.{UseError}
use avault.Cli.{CliError, StoreSelection, auto, keychain, tpm, file, file_passphrase}

pub data StoreUnlock : Type 0 where
  standard_store : Backend → StoreUnlock
  passphrase_store : Bytes → StoreUnlock

-- The operations of avault_store, over its state.
pub record MasterStore (S E : Type 0) : Type 0 where
  pub load_master_key : Backend → Action S E Bytes
  pub load_or_create_master_key : Backend → Action S E Bytes
  pub import_master_key : Backend → Bytes → Bool → Action S E (Unit {0})
  pub authorize_master_key : Backend → Action S E (Unit {0})
  pub load_passphrase_master_key : Bytes → Action S E Bytes
  pub load_or_create_passphrase_master_key : Bytes → Action S E Bytes
  pub import_passphrase_master_key : Bytes → Bytes → Bool → Action S E (Unit {0})

pub data CommandError (E : Type 0) : Type 0 where
  store_failed : E → CommandError E
  input_failed : InputError → CommandError E
  options_refused : CliError → CommandError E
  json_refused : JsonError → CommandError E
  core_failed : CoreError → CommandError E
  box_failed : BlindBoxError → CommandError E
  use_failed : UseError → CommandError E
  sign_failed : SignError → CommandError E
  request_refused : RequestError → CommandError E
  inject_refused : InjectError → CommandError E
  fetch_refused : FetchError → CommandError E
  fetch_failed : ExecuteError → CommandError E
  not_json missing_subcommand unknown_subcommand takes_no_options : CommandError E
  one_shot_protected standard_tier_only duplicate_name out_of_fuel : CommandError E
  separator_required command_required secret_required : CommandError E
  helper_refused : HelperError → CommandError E
  read_file_failed write_failed run_failed : CommandError E

-- Standard input, and the store.
pub record Process (S : Type 0) : Type 0 where
  pub stdin : List ReadEvent
  pub store : S

abbrev pub Command : Type 0 → Type 0 → Type 0 → Type 0
Command S E A = Action (Process S) (CommandError E) A

module _ {S E : Type 0} where
  abbrev pub after_read : Process S → Option Reading → Process S × Result (CommandError E) Bytes
  after_read p none = (p, err out_of_fuel)
  after_read p (some (r, events)) = (record p { stdin = events }, map_err input_failed r)

  -- `reader(input)?`
  abbrev pub input_of : (List ReadEvent → Option Reading) → Command S E Bytes
  input_of reader p = after_read p (reader p.stdin)

  abbrev pub after_store :
      {A : Type 0} → Process S → S × Result E A → Process S × Result (CommandError E) A
  after_store p (s, r) = (record p { store = s }, map_err store_failed r)

  abbrev pub on_store : {A : Type 0} → Action S E A → Command S E A
  on_store operation p = after_store p (operation p.store)

  abbrev pub read_stdin_zeroizing_from : Command S E Bytes
  read_stdin_zeroizing_from =
      input_of (λ events. read_zeroizing_to_cap events max_stdin_secret_bytes)

  abbrev pub read_json_input : Command S E Bytes
  read_json_input = input_of (λ events. read_zeroizing_to_cap events max_stdin_envelope_bytes)

  unfoldable pub read_store_unlock : StoreSelection → Command S E StoreUnlock
  read_store_unlock auto = done (ok (standard_store Store.auto))
  read_store_unlock keychain = done (ok (standard_store Store.keychain))
  read_store_unlock tpm = done (ok (standard_store Store.tpm))
  read_store_unlock file = done (ok (standard_store Store.file))
  read_store_unlock file_passphrase =
      input_of read_passphrase_line >>= λ passphrase. done (ok (passphrase_store passphrase))

  module _ (m : MasterStore S E) where
    abbrev pub load_existing_master_from_unlock : StoreUnlock → Action S E Bytes
    load_existing_master_from_unlock (standard_store backend) = m.load_master_key backend
    load_existing_master_from_unlock (passphrase_store passphrase) =
        m.load_passphrase_master_key passphrase

    abbrev pub load_or_create_master_from_unlock : StoreUnlock → Action S E Bytes
    load_or_create_master_from_unlock (standard_store backend) = m.load_or_create_master_key backend
    load_or_create_master_from_unlock (passphrase_store passphrase) =
        m.load_or_create_passphrase_master_key passphrase

    abbrev pub import_master_with_unlock : StoreUnlock → Bytes → Bool → Action S E (Unit {0})
    import_master_with_unlock (standard_store backend) key force =
        m.import_master_key backend key force
    import_master_with_unlock (passphrase_store passphrase) key force =
        m.import_passphrase_master_key key passphrase force
