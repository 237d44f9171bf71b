-- ===== src/Cli/Commands/Deliver.antt =====
-- `deliver_cmd` with `deliver_run_cmd`, `deliver_fetch_cmd` and `deliver_inject_cmd`.
use avault.Prelude.{ℕ, Bool, true, not, Option, none, some, List, [], ◌∷◌, if◌then◌else◌, is_some}
use avault.Prelude.Bytes.{Bytes, codes}
use avault.Prelude.Result.{Result, ok, err, map_err, bail_if, or_fail, guard}
use avault.Prelude.Action.{done, ◌>>=◌, ◌>>◌}
use avault.Prelude.Result
use avault.Core.Crypto.{Sealed}
use avault.BlindBox.{BlindBox}
use avault.Inject.{validate_inject_request, render_inject_file}
use avault.Fetch.{FetchRequest, validate_fetch_input}
use avault.Fetch.Execute.{FetchOutput, execute_fetch_request, fetch_output_exit_code}
use avault.Wire.Helper.{is_empty, validate_env_value}
use avault.Wire.Input.{read_zeroizing_to_cap, max_stdin_envelope_bytes}
use avault.Agent.Use.{SecretTier, standard, EnvSecretInput, NamedSecretInput, OpenedSecret}
use avault.Agent.Dispatch.{ExitStatus, status_to_exit_code, System}
use avault.Cli.{StoreSelection, to_str, is_text}
use avault.Cli.Options.{DeliverRunOptions, parse_deliver_run_options}
use avault.Cli.Commands.{
  StoreUnlock, MasterStore, CommandError, inject_refused, fetch_refused, fetch_failed,
  helper_refused, options_refused, not_json, takes_no_options, missing_subcommand,
  unknown_subcommand, separator_required, command_required, secret_required, read_file_failed,
  write_failed, run_failed, Command, input_of, read_json_input, read_store_unlock,
}
use avault.Cli.Commands.OneShot.{
  ensure_one_shot_standard_tier, open_one_shot_secret, open_env_secrets, open_named_secrets,
}

pub record FetchInput : Type 0 where
  pub name : Bytes
  pub tier : SecretTier
  pub envelope : Sealed
  pub dek_blindbox : Option BlindBox
  pub approval : Option Bytes
  pub request : FetchRequest

pub record InjectInput : Type 0 where
  pub path : Bytes
  pub format : Bytes
  pub secrets : List NamedSecretInput

-- serde_json, files, and how a command ends with its environment, and with standard input closed or
-- not, if it could be run.
pub record Host : Type 0 where
  pub parse_env_secrets : Bytes → Option (List EnvSecretInput)
  pub parse_sealed : Bytes → Option Sealed
  pub parse_fetch : Bytes → Option FetchInput
  pub parse_inject : Bytes → Option InjectInput
  pub read_file : Bytes → Option Bytes
  pub run_command : List Bytes → List OpenedSecret → Bool → Option ExitStatus

pub data Delivered : Type 0 where
  ran : ℕ → Delivered
  fetched : FetchOutput → ℕ → Delivered
  injected : Delivered

-- The arguments before the first `--`, and those after it.
unfoldable pub split_at_separator : List Bytes → Option (List Bytes × List Bytes)
split_at_separator [] = none
split_at_separator (arg ∷ args) =
    let rest = split_at_separator args in
    if is_text arg (codes "--") then some ([], args) else map_first arg rest
  where
    map_first : Bytes → Option (List Bytes × List Bytes) → Option (List Bytes × List Bytes)
    map_first arg none = none
    map_first arg (some (options, command)) = some (arg ∷ options, command)

module _ {S E : Type 0} (y : System) (h : Host) (m : MasterStore S E) where
  unfoldable pub spawnable : List OpenedSecret → Result (CommandError E) (Unit {0})
  spawnable [] = ok tt
  spawnable (secret ∷ opened) =
      Result.◌>>◌ (map_err helper_refused (validate_env_value secret.plaintext)) (spawnable opened)

  unfoldable pub run_child_with_opened_env :
      List Bytes → List OpenedSecret → Bool → Command S E Delivered
  run_child_with_opened_env command opened envelope_stdin = do
    done (spawnable opened)
    status ← done (or_fail (h.run_command command opened envelope_stdin) run_failed)
    done (ok (ran (status_to_exit_code status)))

  unfoldable pub read_envelope : Option Bytes → Command S E Bytes
  read_envelope (some path) = done (or_fail (h.read_file path) read_file_failed)
  read_envelope none = input_of (λ events. read_zeroizing_to_cap events max_stdin_envelope_bytes)

  abbrev pub deliver_run_request : List Bytes → StoreUnlock → Command S E Delivered
  deliver_run_request command unlock = do
    input ← read_json_input
    secrets ← done (or_fail (h.parse_env_secrets input) not_json)
    done (bail_if (is_empty secrets) secret_required)
    opened ← open_env_secrets y.crypto m unlock secrets
    run_child_with_opened_env command opened true

  abbrev pub one_secret : DeliverRunOptions → Sealed → EnvSecretInput
  one_secret options sealed = record {
    name = options.name;
    env = options.env_name;
    tier = standard;
    envelope = sealed;
    dek_blindbox = none;
    approval = none;
  }

  abbrev pub deliver_run_envelope : List Bytes → List Bytes → StoreUnlock → Command S E Delivered
  deliver_run_envelope options command unlock = do
    run_options ← done (map_err options_refused (parse_deliver_run_options options))
    envelope ← read_envelope run_options.envelope_file
    sealed ← done (or_fail (h.parse_sealed envelope) not_json)
    opened ← open_env_secrets y.crypto m unlock (one_secret run_options sealed ∷ [])
    run_child_with_opened_env command opened (not (is_some run_options.envelope_file))

  unfoldable pub deliver_run_cmd : List Bytes → StoreSelection → Command S E Delivered
  deliver_run_cmd args config = do
    (options, command) ← done (or_fail (split_at_separator args) separator_required)
    done (bail_if (is_empty command) command_required)
    unlock ← read_store_unlock config
    (if is_empty options
        then deliver_run_request command unlock
        else deliver_run_envelope options command unlock)

  abbrev pub parses : Bytes → Bool
  parses url = is_some (y.urls.parse url)

  unfoldable pub deliver_fetch_cmd : List Bytes → StoreSelection → Command S E Delivered
  deliver_fetch_cmd (arg ∷ args) config = done (err takes_no_options)
  deliver_fetch_cmd [] config = do
    unlock ← read_store_unlock config
    input ← read_json_input
    fetch ← done (or_fail (h.parse_fetch input) not_json)
    done (ensure_one_shot_standard_tier fetch.tier)
    (url, is_loopback) ← done (map_err fetch_refused (validate_fetch_input y.urls fetch.request))
    secret ←
        open_one_shot_secret y.crypto m unlock fetch.name fetch.envelope fetch.dek_blindbox
          fetch.approval none
    output ← done (
        map_err fetch_failed
          (execute_fetch_request parses y.client fetch.request secret is_loopback))
    done (ok (fetched output (fetch_output_exit_code output)))

  unfoldable pub deliver_inject_cmd : List Bytes → StoreSelection → Command S E Delivered
  deliver_inject_cmd (arg ∷ args) config = done (err takes_no_options)
  deliver_inject_cmd [] config = do
    unlock ← read_store_unlock config
    input ← read_json_input
    inject ← done (or_fail (h.parse_inject input) not_json)
    format ← done (map_err inject_refused (validate_inject_request inject.secrets inject.format))
    opened ← open_named_secrets y.crypto m unlock inject.secrets
    rendered ← done (map_err inject_refused (render_inject_file y.json_string opened format))
    done (guard (y.write_file inject.path rendered) write_failed)
    done (ok injected)

  abbrev pub deliver_subcommand : Bytes → List Bytes → StoreSelection → Command S E Delivered
  deliver_subcommand subcmd args config =
      if is_text subcmd (codes "run")
      then deliver_run_cmd args config
      else if is_text subcmd (codes "fetch")
      then deliver_fetch_cmd args config
      else if is_text subcmd (codes "inject")
      then deliver_inject_cmd args config
      else done (err unknown_subcommand)

  abbrev pub deliver_named : Option Bytes → List Bytes → StoreSelection → Command S E Delivered
  deliver_named none args config = done (err missing_subcommand)
  deliver_named (some subcmd) args config = deliver_subcommand subcmd args config

  unfoldable pub deliver_cmd : List Bytes → StoreSelection → Command S E Delivered
  deliver_cmd [] config = done (err missing_subcommand)
  deliver_cmd (arg ∷ args) config = deliver_named (to_str arg) args config
