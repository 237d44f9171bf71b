-- ===== src/Cli/Commands/Loads.antt =====
-- Commands that do no more to the store than load keys, and how they are put together.
pub mod Commands
use avault.Prelude.{Option, none, some, List, [], ◌∷◌, any}
use avault.Prelude.Bytes.{Bytes, eq_bytes}
use avault.Prelude.Result.{Result, ok, err, map_err, bail_if}
use avault.Prelude.Action.{done, or_raise, ◌>>=◌, ◌>>◌}
use avault.Core.Crypto.{Crypto, Sealed}
use avault.BlindBox.{BlindBox}
use avault.Wire.{ReadEvent}
use avault.Wire.Input.{
  Reading, read_zeroizing_to_cap, max_stdin_envelope_bytes, read_passphrase_line,
}
use avault.Agent.Use.{validate_shell_name, EnvSecretInput, NamedSecretInput}
use avault.Agent.Use.Secrets.{target_name}
use avault.Cli.{StoreSelection, auto, keychain, tpm, file, file_passphrase}
use avault.Cli.Commands.{
  StoreUnlock, passphrase_store, use_failed, duplicate_name, MasterStore, CommandError, Process,
  Command, after_read, input_of, on_store, read_store_unlock, read_json_input,
  load_existing_master_from_unlock,
}
use avault.Cli.Commands.OneShot.{
  ensure_one_shot_standard_tier, loaded_or_load, open_one_shot_secret, open_env_round,
  open_env_secrets, open_named_round, open_named_secrets,
}

-- The store after keys have been loaded from it.
pub data Loads {S E : Type 0} (m : MasterStore S E) : S → S → Type 0 where
  still : {s : S} → Loads m s s
  loads :
      {s t : S} (unlock : StoreUnlock)
      → Loads m (load_existing_master_from_unlock m unlock s).0 t
      → Loads m s t

-- Whatever it is run on, the command does no more to the store than load keys.
pub record OnlyLoads {S E A : Type 0} (m : MasterStore S E) (command : Command S E A) : Type 0 where
  pub from : (p : Process S) → Loads m p.store (command p).0.store

module _ {S E : Type 0} (m : MasterStore S E) where
  Loads-trans : {s t u : S} → Loads m s t → Loads m t u → Loads m s u
  Loads-trans still more = more
  Loads-trans (loads unlock first) more = loads unlock (Loads-trans first more)

  pub done-OnlyLoads : {A : Type 0} (r : Result (CommandError E) A) → OnlyLoads m (done r)
  done-OnlyLoads r = record { from = λ p. still }

  pub bind-OnlyLoads :
      {A B : Type 0} (first : Command S E A) (f : A → Command S E B)
      → OnlyLoads m first
      → ((a : A) → OnlyLoads m (f a))
      → OnlyLoads m (first >>= f)
  bind-OnlyLoads {A} first f h k = record {
    from = λ p. Loads-trans (h.from p) (after (first p).1 (first p).0);
  }
    where
      after :
          (r : Result (CommandError E) A) (q : Process S) → Loads m q.store (or_raise f r q).0.store
      after (ok a) q = (k a).from q
      after (err e) q = still

  pub check-OnlyLoads :
      {B : Type 0} (r : Result (CommandError E) (Unit {0})) (rest : Command S E B)
      → OnlyLoads m rest
      → OnlyLoads m (done r >> rest)
  check-OnlyLoads r rest k = bind-OnlyLoads (done r) (λ _. rest) (done-OnlyLoads r) (λ _. k)

  pub input_of-OnlyLoads :
      (reader : List ReadEvent → Option Reading) → OnlyLoads m (input_of reader)
  input_of-OnlyLoads reader = record {
    from = λ p. elim (reader p.stdin) as (λ r. Loads m p.store (after_read {E = E} p r).0.store) [
      | none ↦ still
      | some (r, events) ↦ still
    ];
  }

  pub read_json_input-OnlyLoads : OnlyLoads m read_json_input
  read_json_input-OnlyLoads =
      input_of-OnlyLoads (λ events. read_zeroizing_to_cap events max_stdin_envelope_bytes)

  pub load-OnlyLoads :
      (unlock : StoreUnlock) → OnlyLoads m (on_store (load_existing_master_from_unlock m unlock))
  load-OnlyLoads unlock = record { from = λ p. loads unlock still }

  pub read_store_unlock-OnlyLoads :
      (config : StoreSelection) → OnlyLoads m (read_store_unlock config)
  unfolding read_store_unlock
  read_store_unlock-OnlyLoads auto = done-OnlyLoads _
  read_store_unlock-OnlyLoads keychain = done-OnlyLoads _
  read_store_unlock-OnlyLoads tpm = done-OnlyLoads _
  read_store_unlock-OnlyLoads file = done-OnlyLoads _
  read_store_unlock-OnlyLoads file_passphrase =
      bind-OnlyLoads (input_of read_passphrase_line)
        (λ passphrase. done (ok (passphrase_store passphrase)))
        (input_of-OnlyLoads read_passphrase_line) (λ passphrase. done-OnlyLoads _)

module _ {S E : Type 0} (m : MasterStore S E) where
  pub open_one_shot_secret-OnlyLoads :
      (c : Crypto) (unlock : StoreUnlock) (name : Bytes) (envelope : Sealed) (box : Option BlindBox)
      (approval loaded : Option Bytes)
      → OnlyLoads m (open_one_shot_secret c m unlock name envelope box approval loaded)
  unfolding open_one_shot_secret
  open_one_shot_secret-OnlyLoads c unlock name envelope box approval loaded =
      bind-OnlyLoads m _ _ (done-OnlyLoads m _)
        (λ _. bind-OnlyLoads m _ _ (loaded-OnlyLoads loaded) (λ _. done-OnlyLoads m _))
    where
      loaded-OnlyLoads : (o : Option Bytes) → OnlyLoads m (loaded_or_load c m unlock o)
      loaded-OnlyLoads none = load-OnlyLoads m unlock
      loaded-OnlyLoads (some master) = done-OnlyLoads m _

  open_env_round-OnlyLoads :
      (c : Crypto) (unlock : StoreUnlock) (master : Bytes) (seen : List Bytes)
      (secrets : List EnvSecretInput)
      → OnlyLoads m (open_env_round c m unlock master seen secrets)
  unfolding open_env_round
  open_env_round-OnlyLoads c unlock master seen [] = done-OnlyLoads m _
  open_env_round-OnlyLoads c unlock master seen (i ∷ secrets) =
      check-OnlyLoads m (ensure_one_shot_standard_tier i.tier) _ (
        check-OnlyLoads m (map_err use_failed (validate_shell_name i.env)) _ (
          check-OnlyLoads m (bail_if (any (eq_bytes i.env) seen) duplicate_name) _ (
            bind-OnlyLoads m _ _
              (open_one_shot_secret-OnlyLoads c unlock i.name i.envelope i.dek_blindbox i.approval
                (some master))
              (λ _.
                bind-OnlyLoads m _ _
                  (open_env_round-OnlyLoads c unlock master (i.env ∷ seen) secrets)
                  (λ _. done-OnlyLoads m _)))))

  pub open_env_secrets-OnlyLoads :
      (c : Crypto) (unlock : StoreUnlock) (secrets : List EnvSecretInput)
      → OnlyLoads m (open_env_secrets c m unlock secrets)
  unfolding open_env_secrets
  open_env_secrets-OnlyLoads c unlock secrets =
      bind-OnlyLoads m _ _ (load-OnlyLoads m unlock)
        (λ master. open_env_round-OnlyLoads c unlock master [] secrets)

  open_named_round-OnlyLoads :
      (c : Crypto) (unlock : StoreUnlock) (master : Bytes) (seen : List Bytes)
      (secrets : List NamedSecretInput)
      → OnlyLoads m (open_named_round c m unlock master seen secrets)
  unfolding open_named_round
  open_named_round-OnlyLoads c unlock master seen [] = done-OnlyLoads m _
  open_named_round-OnlyLoads c unlock master seen (i ∷ secrets) =
      check-OnlyLoads m (ensure_one_shot_standard_tier i.tier) _ (
        check-OnlyLoads m (map_err use_failed (validate_shell_name (target_name i))) _ (
          check-OnlyLoads m (bail_if (any (eq_bytes (target_name i)) seen) duplicate_name) _ (
            bind-OnlyLoads m _ _
              (open_one_shot_secret-OnlyLoads c unlock i.name i.envelope i.dek_blindbox i.approval
                (some master))
              (λ _.
                bind-OnlyLoads m _ _
                  (open_named_round-OnlyLoads c unlock master (target_name i ∷ seen) secrets)
                  (λ _. done-OnlyLoads m _)))))

  pub open_named_secrets-OnlyLoads :
      (c : Crypto) (unlock : StoreUnlock) (secrets : List NamedSecretInput)
      → OnlyLoads m (open_named_secrets c m unlock secrets)
  unfolding open_named_secrets
  open_named_secrets-OnlyLoads c unlock secrets =
      bind-OnlyLoads m _ _ (load-OnlyLoads m unlock)
        (λ master. open_named_round-OnlyLoads c unlock master [] secrets)
