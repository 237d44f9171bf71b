-- ===== src/Cli/Commands/OneShot.antt =====
-- One-shot delivery opens its secrets with the master key: `open_env_secrets`,
-- `open_named_secrets` and `open_one_shot_secret`.
use avault.Prelude.{◌||◌, Option, none, some, List, [], ◌∷◌, is_some, any}
use avault.Prelude.Bytes.{Bytes, eq_bytes}
use avault.Prelude.Result.{Result, ok, err, map_err, bail_if}
use avault.Prelude.Action.{done, ◌>>=◌, ◌>>◌}
use avault.Core.Crypto.{Crypto, Sealed}
use avault.Core.Envelope.{open_sealed}
use avault.BlindBox.{BlindBox}
use avault.Agent.Use.{
  SecretTier, standard, protected, EnvSecretInput, NamedSecretInput, OpenedSecret,
  validate_shell_name,
}
use avault.Agent.Use.Secrets.{target_name}
use avault.Cli.Commands.{
  StoreUnlock, MasterStore, CommandError, core_failed, use_failed, one_shot_protected,
  standard_tier_only, duplicate_name, Command, on_store, load_existing_master_from_unlock,
}

module _ {E : Type 0} where
  abbrev pub reject_one_shot_protected_fields :
      Option BlindBox → Option Bytes → Result (CommandError E) (Unit {0})
  reject_one_shot_protected_fields dek_blindbox approval =
      bail_if (is_some dek_blindbox || is_some approval) one_shot_protected

  abbrev pub ensure_one_shot_standard_tier : SecretTier → Result (CommandError E) (Unit {0})
  ensure_one_shot_standard_tier standard = ok tt
  ensure_one_shot_standard_tier protected = err standard_tier_only

module _ {S E : Type 0} (c : Crypto) (m : MasterStore S E) (unlock : StoreUnlock) where
  abbrev pub loaded_or_load : Option Bytes → Command S E Bytes
  loaded_or_load (some master) = done (ok master)
  loaded_or_load none = on_store (load_existing_master_from_unlock m unlock)

  unfoldable pub open_one_shot_secret :
      Bytes → Sealed → Option BlindBox → Option Bytes → Option Bytes → Command S E Bytes
  open_one_shot_secret name envelope dek_blindbox approval loaded_master = do
    done (reject_one_shot_protected_fields dek_blindbox approval)
    master ← loaded_or_load loaded_master
    done (map_err core_failed (open_sealed c master name envelope))

  unfoldable pub open_env_round :
      Bytes → List Bytes → List EnvSecretInput → Command S E (List OpenedSecret)
  open_env_round master seen [] = done (ok [])
  open_env_round master seen (secret ∷ secrets) = do
    done (ensure_one_shot_standard_tier secret.tier)
    done (map_err use_failed (validate_shell_name secret.env))
    done (bail_if (any (eq_bytes secret.env) seen) duplicate_name)
    plaintext ←
        open_one_shot_secret secret.name secret.envelope secret.dek_blindbox secret.approval
          (some master)
    opened ← open_env_round master (secret.env ∷ seen) secrets
    done (ok (record { name = secret.env; plaintext = plaintext } ∷ opened))

  unfoldable pub open_env_secrets : List EnvSecretInput → Command S E (List OpenedSecret)
  unfolding open_env_round
  open_env_secrets secrets = do
    master ← on_store (load_existing_master_from_unlock m unlock)
    open_env_round master [] secrets

  unfoldable pub open_named_round :
      Bytes → List Bytes → List NamedSecretInput → Command S E (List OpenedSecret)
  open_named_round master seen [] = done (ok [])
  open_named_round master seen (secret ∷ secrets) = do
    done (ensure_one_shot_standard_tier secret.tier)
    done (map_err use_failed (validate_shell_name (target_name secret)))
    done (bail_if (any (eq_bytes (target_name secret)) seen) duplicate_name)
    plaintext ←
        open_one_shot_secret secret.name secret.envelope secret.dek_blindbox secret.approval
          (some master)
    opened ← open_named_round master (target_name secret ∷ seen) secrets
    done (ok (record { name = target_name secret; plaintext = plaintext } ∷ opened))

  unfoldable pub open_named_secrets : List NamedSecretInput → Command S E (List OpenedSecret)
  unfolding open_named_round
  open_named_secrets secrets = do
    master ← on_store (load_existing_master_from_unlock m unlock)
    open_named_round master [] secrets
