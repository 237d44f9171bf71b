-- ===== src/Cli/Commands/AsAgent.antt =====
-- What one-shot delivery opens is what the agent opens with the same master key.
use avault.Prelude.{
  ◌≡◌, refl, ap, inl, inr, ◌||◌, Option, some, List, [], ◌∷◌, arith, Bool-cases, is_some, any,
}
use avault.Prelude.Bytes.{Bytes, eq_bytes}
use avault.Prelude.Result.{Result, ok, map_err, bail_if, ok-injective, bail_if-eq-ok, map_err-eq-ok}
use avault.Prelude.Action.{done, step-eq-ok}
use avault.Core.Crypto.{Crypto, Sealed}
use avault.Core.Envelope.{open_sealed}
use avault.BlindBox.{BlindBox}
use avault.Agent.Grants.{GrantEntry}
use avault.Agent.GrantRequest.{Hex}
use avault.Agent.Use.{
  SecretTier, standard, protected, EnvSecretInput, NamedSecretInput, OpenedSecret,
  validate_shell_name, reject_agent_one_shot_secret_fields, open_agent_secret,
}
use avault.Agent.Use.Secrets.{
  target_name, open_env_seen, open_env_secrets_for_agent, open_named_seen,
  open_named_secrets_for_agent,
}
use avault.Cli.Commands.{
  StoreUnlock, MasterStore, CommandError, core_failed, use_failed, duplicate_name, Process,
  on_store, load_existing_master_from_unlock,
}
use avault.Cli.Commands.OneShot.{
  ensure_one_shot_standard_tier, open_one_shot_secret, open_env_round, open_env_secrets,
  open_named_round, open_named_secrets,
}
use avault.Cli.Commands.{after_store, store_failed}

module _ {S E : Type 0} (c : Crypto) (hex : Hex) (m : MasterStore S E) (unlock : StoreUnlock)
    (grant : GrantEntry) where
  open_one_shot_secret-agent :
      (name : Bytes) (tier : SecretTier) (envelope : Sealed) (box : Option BlindBox)
      (approval : Option Bytes) (master : Bytes) (p : Process S) {plaintext : Bytes}
      → ensure_one_shot_standard_tier {E = E} tier ≡ ok tt
      → (open_one_shot_secret c m unlock name envelope box approval (some master) p).1
        ≡ ok plaintext
      → (reject_agent_one_shot_secret_fields box approval ≡ ok tt)
        × (open_agent_secret c hex name tier envelope grant (some master) ≡ ok plaintext)
  unfolding open_one_shot_secret reject_agent_one_shot_secret_fields open_agent_secret
  open_one_shot_secret-agent name protected envelope box approval master p s h = cc
  open_one_shot_secret-agent name standard envelope box approval master p s h =
      elim (Bool-cases (is_some box || is_some approval)) [
        | inl e ↦ absurd (ground (arith, h))
        | inr e ↦
            let opens : map_err {F = CommandError E} core_failed
                  (open_sealed c master name envelope)
                ≡ ok _ =
              rw e at h in
            (
              rw e refl,
              rw (map_err-eq-ok core_failed (open_sealed c master name envelope) opens) refl,
            )
      ]

  open_env_round-agent :
      (master : Bytes) (seen : List Bytes) (secrets : List EnvSecretInput) (p : Process S)
      {opened : List OpenedSecret}
      → (open_env_round c m unlock master seen secrets p).1 ≡ ok opened
      → open_env_seen c hex seen secrets grant (some master) ≡ ok opened
  unfolding open_env_round open_env_seen
  open_env_round-agent master seen [] p h = ap ok (ok-injective h)
  open_env_round-agent master seen (i ∷ secrets) p h =
      let (_, tier, h₁) = step-eq-ok (done (ensure_one_shot_standard_tier i.tier)) _ p h in
      let (_, valid, h₂) =
        step-eq-ok (done (map_err use_failed (validate_shell_name i.env))) _ p h₁ in
      let (_, fresh, h₃) =
        step-eq-ok (done (bail_if (any (eq_bytes i.env) seen) duplicate_name)) _ p h₂ in
      let open_it =
        open_one_shot_secret c m unlock i.name i.envelope i.dek_blindbox i.approval (some master) in
      let (plaintext, opens, h₄) = step-eq-ok open_it _ p h₃ in
      let (rest, later, h₅) =
        step-eq-ok (open_env_round c m unlock master (i.env ∷ seen) secrets) _ (open_it p).0 h₄ in
      let (bare, as_agent) =
        open_one_shot_secret-agent i.name i.tier i.envelope i.dek_blindbox i.approval master p tier
          opens in
      rw
        (
          bare,
          map_err-eq-ok use_failed (validate_shell_name i.env) valid,
          bail_if-eq-ok (any (eq_bytes i.env) seen) duplicate_name fresh,
          as_agent,
          open_env_round-agent master (i.env ∷ seen) secrets (open_it p).0 later,
        )
        (ap ok (ok-injective h₅))

  open_named_round-agent :
      (master : Bytes) (seen : List Bytes) (secrets : List NamedSecretInput) (p : Process S)
      {opened : List OpenedSecret}
      → (open_named_round c m unlock master seen secrets p).1 ≡ ok opened
      → open_named_seen c hex seen secrets grant (some master) ≡ ok opened
  unfolding open_named_round open_named_seen
  open_named_round-agent master seen [] p h = ap ok (ok-injective h)
  open_named_round-agent master seen (i ∷ secrets) p h =
      let name = target_name i in
      let (_, tier, h₁) = step-eq-ok (done (ensure_one_shot_standard_tier i.tier)) _ p h in
      let (_, valid, h₂) =
        step-eq-ok (done (map_err use_failed (validate_shell_name name))) _ p h₁ in
      let (_, fresh, h₃) =
        step-eq-ok (done (bail_if (any (eq_bytes name) seen) duplicate_name)) _ p h₂ in
      let open_it =
        open_one_shot_secret c m unlock i.name i.envelope i.dek_blindbox i.approval (some master) in
      let (plaintext, opens, h₄) = step-eq-ok open_it _ p h₃ in
      let (rest, later, h₅) =
        step-eq-ok (open_named_round c m unlock master (name ∷ seen) secrets) _ (open_it p).0 h₄ in
      let (bare, as_agent) =
        open_one_shot_secret-agent i.name i.tier i.envelope i.dek_blindbox i.approval master p tier
          opens in
      rw
        (
          bare,
          map_err-eq-ok use_failed (validate_shell_name name) valid,
          bail_if-eq-ok (any (eq_bytes name) seen) duplicate_name fresh,
          as_agent,
          open_named_round-agent master (name ∷ seen) secrets (open_it p).0 later,
        )
        (ap ok (ok-injective h₅))

  on_store-eq-ok :
      {A : Type 0} (x : S × Result E A) (p : Process S) {a : A}
      → (after_store p x).1 ≡ ok a
      → x.1 ≡ ok a
  on_store-eq-ok (s, r) p h = map_err-eq-ok store_failed r h

  -- Environment secrets that one-shot delivery opens are those that the agent opens under any
  -- grant with the same master key, which is the existing one of the store.
  pub open_env_secrets-as_agent :
      (p : Process S) (secrets : List EnvSecretInput) {opened : List OpenedSecret}
      → (open_env_secrets c m unlock secrets p).1 ≡ ok opened
      → (master : Bytes) × ((load_existing_master_from_unlock m unlock p.store).1 ≡ ok master)
        × (open_env_secrets_for_agent c hex secrets grant (some master) ≡ ok opened)
  unfolding open_env_secrets open_env_secrets_for_agent
  open_env_secrets-as_agent p secrets h =
      let loaded = load_existing_master_from_unlock m unlock p.store in
      let load = on_store {S = S} {E = E} (load_existing_master_from_unlock m unlock) in
      let (master, l, h₁) = step-eq-ok load _ p h in
      (master, on_store-eq-ok loaded p l, open_env_round-agent master [] secrets (load p).0 h₁)

  pub open_named_secrets-as_agent :
      (p : Process S) (secrets : List NamedSecretInput) {opened : List OpenedSecret}
      → (open_named_secrets c m unlock secrets p).1 ≡ ok opened
      → (master : Bytes) × ((load_existing_master_from_unlock m unlock p.store).1 ≡ ok master)
        × (open_named_secrets_for_agent c hex secrets grant (some master) ≡ ok opened)
  unfolding open_named_secrets open_named_secrets_for_agent
  open_named_secrets-as_agent p secrets h =
      let loaded = load_existing_master_from_unlock m unlock p.store in
      let load = on_store {S = S} {E = E} (load_existing_master_from_unlock m unlock) in
      let (master, l, h₁) = step-eq-ok load _ p h in
      (master, on_store-eq-ok loaded p l, open_named_round-agent master [] secrets (load p).0 h₁)
