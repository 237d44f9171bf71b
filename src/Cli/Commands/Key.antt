-- ===== src/Cli/Commands/Key.antt =====
-- `avault key`: `key_export_cmd`, `key_import_cmd`, `key_authorize_cmd` and `key_cmd`. What is printed
-- as JSON is the result.
use avault.Prelude.{Option, none, some, List, [], ◌∷◌, if◌then◌else◌}
use avault.Prelude.Bytes.{Bytes, codes}
use avault.Prelude.Result.{Result, ok, err, map_err, bail_if, or_fail, ok-injective, Result-cases}
use avault.Prelude.Result
use avault.Prelude.Action.{done, ◌>>=◌, ◌>>◌}
use avault.Core.Crypto.{Crypto}
use avault.Core.Export.{ExportBlob, export_master_key, import_master_key}
use avault.Json.Fields.{import_passphrase_from_json, blob_slice}
use avault.Wire.Input.{trim_trailing_newlines}
use avault.Cli.{StoreSelection, to_str, is_text}
use avault.Cli.Options.{parse_flag}
use avault.Cli.Commands.{
  StoreUnlock, standard_store, passphrase_store, MasterStore, CommandError, core_failed,
  options_refused, json_refused, not_json, takes_no_options, missing_subcommand, unknown_subcommand,
  Command, on_store, read_stdin_zeroizing_from, read_store_unlock, load_existing_master_from_unlock,
  import_master_with_unlock,
}

pub data KeyOutput : Type 0 where
  exported : ExportBlob → KeyOutput
  done_ok : KeyOutput

module _ {S E : Type 0} (c : Crypto) (m : MasterStore S E) where
  unfoldable pub key_export_cmd : Bytes → Bytes → StoreSelection → Command S E KeyOutput
  key_export_cmd salt nonce config = do
    unlock ← read_store_unlock config
    passphrase ← read_stdin_zeroizing_from
    master ← on_store (load_existing_master_from_unlock m unlock)
    blob ← done (
        map_err core_failed
          (export_master_key c salt nonce master (trim_trailing_newlines passphrase)))
    done (ok (exported blob))

  -- `parse` is serde_json on the bytes of the blob.
  unfoldable pub import_blob_from_json :
      (Bytes → Option ExportBlob) → Bytes → Result (CommandError E) ExportBlob
  import_blob_from_json parse input =
      Result.◌>>=◌ (map_err json_refused (blob_slice input))
        (λ slice. or_fail (parse slice) not_json)

  unfoldable pub key_import_cmd :
      (Bytes → Option ExportBlob) → List Bytes → StoreSelection → Command S E KeyOutput
  key_import_cmd parse args config = do
    force ← done (map_err options_refused (parse_flag args (codes "--force")))
    unlock ← read_store_unlock config
    input ← read_stdin_zeroizing_from
    passphrase ← done (map_err json_refused (import_passphrase_from_json input))
    blob ← done (import_blob_from_json parse input)
    key ← done (map_err core_failed (import_master_key c blob (trim_trailing_newlines passphrase)))
    on_store (import_master_with_unlock m unlock key force)
    done (ok done_ok)

  abbrev pub authorized : StoreUnlock → Command S E (Unit {0})
  authorized (standard_store backend) = on_store (m.authorize_master_key backend)
  authorized (passphrase_store passphrase) = do
    master ← on_store (load_existing_master_from_unlock m (passphrase_store passphrase))
    done (ok tt)

  unfoldable pub key_authorize_cmd : List Bytes → StoreSelection → Command S E KeyOutput
  key_authorize_cmd (arg ∷ args) config = done (err takes_no_options)
  key_authorize_cmd [] config = do
    unlock ← read_store_unlock config
    authorized unlock
    done (ok done_ok)

  abbrev pub key_subcommand :
      (Bytes → Option ExportBlob)
      → Bytes
      → Bytes
      → Bytes
      → List Bytes
      → StoreSelection
      → Command S E KeyOutput
  key_subcommand parse salt nonce subcmd args config =
      if is_text subcmd (codes "export")
      then key_export_cmd salt nonce config
      else if is_text subcmd (codes "import")
      then key_import_cmd parse args config
      else if is_text subcmd (codes "authorize")
      then key_authorize_cmd args config
      else done (err unknown_subcommand)

  unfoldable pub key_cmd :
      (Bytes → Option ExportBlob)
      → Bytes
      → Bytes
      → List Bytes
      → StoreSelection
      → Command S E KeyOutput
  key_cmd parse salt nonce [] config = done (err missing_subcommand)
  key_cmd parse salt nonce (arg ∷ args) config = elim (to_str arg) [
    | none ↦ done (err missing_subcommand)
    | some subcmd ↦ key_subcommand parse salt nonce subcmd args config
  ]
