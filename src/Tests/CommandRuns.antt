-- ===== src/Tests/CommandRuns.antt =====
-- A key that one store exports and another imports, and one-shot delivery.
use avault.Prelude.{
  ◌≡◌, refl, ◌≤◌, true, Option, none, some, List, [], ◌∷◌, ◌++◌, map, arith, length,
}
use avault.Prelude.Bytes.{Bytes, codes, eq_bytes}
use avault.Prelude.Result.{Result, ok, err}
use avault.Prelude.Action.{Action, done, attempt, or_raise}
use avault.Tests.ToyCrypto.{frame, toy_crypto, toy_laws}
use avault.Core.Export.{ExportBlob, export_blob, export_master_key}
use avault.Core.Scrypt.{
  validate_scrypt_params, is_power_of_two, power_below, checked_ilog2, ilog2_below,
  derive_kek_scrypt,
}
use avault.Json.Spelling.{Piece, plain, meaning, meanings, print_string, print_pieces, print_piece}
use avault.Json.Tree.{
  Members, string, object, number, no_members, member, print, print_members, AreMembers,
}
use avault.Json.Lookup.{lookup, KeysFit}
use avault.Wire.{ReadEvent, arrive}
use avault.Wire.Input.{
  trim_trailing_newlines, read_call, read_rounds, drop_last, line_rounds, pop_return,
}
use avault.Cli.{file, file_passphrase}
use avault.Store
use avault.Cli.Options.{parse_flag, flag_loop}
use avault.Cli.Commands.{
  standard_store, passphrase_store, MasterStore, Process, on_store, read_store_unlock,
  import_master_with_unlock,
}
use avault.Cli.Commands.Key.{exported, done_ok, key_export_cmd, key_import_cmd}
use avault.Core.Crypto.{decode_nonce}
use avault.Core.Envelope.{aad, envelope, open_sealed, unwrap_dek, open_value_with_dek, slice_to_key}
use avault.Agent.Grants.{GrantEntry}
use avault.Agent.Use.{standard, EnvSecretInput, OpenedSecret, validate_shell_name}
use avault.Agent.Use.Secrets.{open_env_secrets_for_agent}
use avault.Tests.UseRuns.{toy_hex}
use avault.Cli.Commands.OneShot.{open_one_shot_secret, open_env_round, open_env_secrets}
use avault.Cli.Commands.AsAgent.{open_env_secrets-as_agent}
use avault.Inject.{utf8_from}
use avault.Wire.Helper.{validate_env_value}
use avault.Tests.DispatchRuns.{toy_system}
use avault.Cli.Commands.Deliver.{
  Host, ran, split_at_separator, spawnable, run_child_with_opened_env, deliver_run_cmd, deliver_cmd,
}
use avault.Cli.Commands.Loads.{OnlyLoads}
use avault.Cli.Commands.Loads.Commands.{deliver_cmd-OnlyLoads}
use avault.Wire.Delivery.{payload}
use avault.Json.{max_stdin_secret_bytes}
use avault.Cli.Commands.Transfer.{Waits, key_import_cmd-key_export_cmd}

-- The store holds a key or none.
abbrev held : Action (Option Bytes) (Unit {0}) Bytes
held none = (none, err tt)
held (some key) = (some key, ok key)

abbrev toy_store : MasterStore (Option Bytes) (Unit {0})
toy_store = record {
  load_master_key = λ backend. held;
  load_or_create_master_key = λ backend. held;
  import_master_key = λ backend key force s. (some key, ok tt);
  authorize_master_key = λ backend. done (ok tt);
  load_passphrase_master_key = λ passphrase. held;
  load_or_create_passphrase_master_key = λ passphrase. held;
  import_passphrase_master_key = λ key passphrase force s. (some key, ok tt);
}

abbrev key : Bytes
key = codes "0123456789abcdef0123456789abcdef"

abbrev nonce : Bytes
nonce = codes "nonce-012345"

abbrev exporter : Process (Option Bytes)
exporter = record {
  stdin = arrive (codes "store\npa") ∷ arrive (codes "ss\n") ∷ [];
  store = some key;
}

abbrev unlocked : Process (Option Bytes)
unlocked = record { stdin = arrive (codes "pa") ∷ arrive (codes "ss\n") ∷ []; store = some key }

abbrev blob : ExportBlob
blob = export_blob toy_crypto nonce nonce (frame [] key)

unlocks :
    read_store_unlock {E = Unit {0}} file_passphrase exporter
    ≡ (unlocked, ok (passphrase_store (codes "store")))
unfolding read_store_unlock line_rounds read_call pop_return
unlocks = refl

exports :
    (key_export_cmd toy_crypto toy_store nonce nonce file_passphrase exporter).1
    ≡ ok (exported blob)
unfolding key_export_cmd read_store_unlock line_rounds read_call pop_return read_rounds drop_last
    export_master_key derive_kek_scrypt validate_scrypt_params is_power_of_two power_below
    checked_ilog2 ilog2_below
exports = refl

abbrev key_of : Bytes → List Piece
key_of cs = map plain cs

abbrev members : Members
members =
    member (key_of (codes "blob")) (number (codes "1"))
      (member (key_of (codes "passphrase")) (string (key_of (codes "pass"))) no_members)

abbrev text : Bytes
text = [] ++ (print [] (object members) ++ [])

AreMembers-members : AreMembers members
AreMembers-members = ground arith

KeysFit-members : KeysFit members
unfolding meanings meaning
KeysFit-members = (omega arith, (omega arith, tt))

abbrev importer : Process (Option Bytes)
importer = record { stdin = arrive text ∷ []; store = none }

passphrase_member : lookup (codes "passphrase") members ≡ some (string (key_of (codes "pass")))
unfolding lookup eq_bytes meanings meaning
passphrase_member = refl

blob_member : lookup (codes "blob") members ≡ some (number (codes "1"))
unfolding lookup eq_bytes meanings meaning
blob_member = refl

file_unlock :
    read_store_unlock {E = Unit {0}} file importer ≡ (importer, ok (standard_store Store.file))
unfolding read_store_unlock
file_unlock = refl

forces : parse_flag (codes "--force" ∷ []) (codes "--force") ≡ ok true
unfolding flag_loop eq_bytes
forces = refl

text_size : length text ≡ 30
unfolding print print_members print_string print_pieces print_piece
text_size = refl

pass-Waits : Waits unlocked (codes "pass\n")
unfolding payload
pass-Waits = ((omega arith, (omega arith, tt)), refl, omega arith)

text-Waits : Waits importer text
unfolding payload print print_string print_pieces print_piece
text-Waits = ((omega (arith, text_size), tt), refl, omega (arith, text_size))

pass_size : length (meanings (key_of (codes "pass"))) ≤ max_stdin_secret_bytes
unfolding meanings meaning
pass_size = omega arith

pass_same :
    trim_trailing_newlines (meanings (key_of (codes "pass")))
    ≡ trim_trailing_newlines (codes "pass\n")
unfolding meanings meaning drop_last
pass_same = refl

key_import_cmd-key_export_cmd_example :
    (left : List ReadEvent) × (key_import_cmd toy_crypto toy_store
        (λ bytes. some blob)
        (codes "--force" ∷ [])
        file
        importer
      ≡ attempt
          (on_store (import_master_with_unlock toy_store (standard_store Store.file) key true))
          (or_raise (λ _. done (ok done_ok)))
          (record importer { stdin = left }))
key_import_cmd-key_export_cmd_example =
    key_import_cmd-key_export_cmd toy_crypto toy_laws toy_store nonce nonce (codes "pass\n") key
      file_passphrase (passphrase_store (codes "store")) exporter unlocked (some key)
      (λ bytes. some blob) (codes "--force" ∷ []) true file (standard_store Store.file) importer
      importer blob [] [] [] members (key_of (codes "pass")) (number (codes "1")) refl refl unlocks
      pass-Waits refl exports forces file_unlock text-Waits refl refl AreMembers-members
      KeysFit-members passphrase_member pass_size pass_same blob_member refl

abbrev secret : EnvSecretInput
secret = record {
  name = codes "API";
  env = codes "TOKEN";
  tier = standard;
  envelope =
      envelope toy_crypto nonce nonce (frame (aad (codes "API")) (codes "s3cr3t")) (frame [] key);
  dek_blindbox = none;
  approval = none;
}

abbrev opened : List OpenedSecret
opened = record { name = codes "TOKEN"; plaintext = codes "s3cr3t" } ∷ []

abbrev no_grant : GrantEntry
no_grant = record { expires_at = 0; deks = [] }

opens_one_shot :
    (open_env_secrets toy_crypto toy_store (standard_store Store.file) (secret ∷ []) exporter).1
    ≡ ok opened
unfolding open_env_secrets open_env_round open_one_shot_secret validate_shell_name open_sealed
    unwrap_dek open_value_with_dek slice_to_key decode_nonce aad eq_bytes
opens_one_shot = refl

open_env_secrets-as_agent_example :
    (master : Bytes) × (◌≡◌ {A = Result (Unit {0}) Bytes} (ok key) (ok master))
    × (open_env_secrets_for_agent toy_crypto toy_hex (secret ∷ []) no_grant (some master)
        ≡ ok opened)
open_env_secrets-as_agent_example =
    open_env_secrets-as_agent toy_crypto toy_hex toy_store (standard_store Store.file) no_grant
      exporter (secret ∷ []) opens_one_shot

abbrev toy_host : Host
toy_host = record {
  parse_env_secrets = λ bytes. some (secret ∷ []);
  parse_sealed = λ bytes. some secret.envelope;
  parse_fetch = λ bytes. none;
  parse_inject = λ bytes. none;
  read_file = λ path. some [];
  run_command = λ command variables closed. some (record { signal = none; code = some 0 });
}

abbrev deliver_args : List Bytes
deliver_args = codes "run" ∷ codes "--" ∷ codes "env" ∷ []

delivers : (deliver_cmd toy_system toy_host toy_store deliver_args file exporter).1 ≡ ok (ran 0)
unfolding deliver_cmd deliver_run_cmd run_child_with_opened_env spawnable split_at_separator
    read_store_unlock read_rounds read_call open_env_secrets open_env_round open_one_shot_secret
    validate_shell_name open_sealed unwrap_dek open_value_with_dek slice_to_key decode_nonce aad
    eq_bytes validate_env_value utf8_from
delivers = refl

deliver_cmd-OnlyLoads_example :
    OnlyLoads toy_store (deliver_cmd toy_system toy_host toy_store deliver_args file)
deliver_cmd-OnlyLoads_example =
    deliver_cmd-OnlyLoads toy_system toy_host toy_store deliver_args file
