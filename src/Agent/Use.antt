-- ===== src/Agent/Use.antt =====
-- How the agent uses a grant, from crates/avault-cli/src/main.rs: `open_with_grant` over
-- `AgentShared`, and the opening of one secret and of the secrets of a request. What other threads do
-- between two locked sections is an argument, and so are the readings of the clock.
pub mod Checks
pub mod Secrets
use avault.Prelude.{
  ℕ, Bool, true, false, not, ◌&&◌, ◌||◌, Option, none, some, [], ◌∷◌, ◌==◌, is_some, all,
}
use avault.Prelude.Bytes.{Bytes, is_upper, is_lower, is_digit}
use avault.Prelude.Result.{Result, ok, err, bail_if, map_err}
use avault.Prelude.Maps.{lookup}
use avault.Prelude.Action.{Action, done, ◌>>=◌, ◌>>◌}
use avault.Core.Crypto.{Crypto, CoreError, Sealed}
use avault.Core.Envelope.{open_sealed}
use avault.Core.Protected.{open_with_dek}
use avault.BlindBox.{BlindBox}
use avault.Agent.Grants.{
  AgentState, GrantKey, GrantEntry, GrantError, deliver, sign, dek_key_eq, get_live_grant,
  record_activity,
}
use avault.Agent.MasterCache
use avault.Agent.MasterCache.{AgentMasterCache}
use avault.Agent.GrantRequest.{Hex}

pub data UseError : Type 0 where
  refused : GrantError → UseError
  master_failed : ℕ → UseError
  core : CoreError → UseError
  one_shot_fields invalid_name duplicate_name master_required not_covered render_failed : UseError

pub data SecretTier : Type 0 where
  standard protected : SecretTier

pub record EnvSecretInput : Type 0 where
  pub name : Bytes
  pub env : Bytes
  pub tier : SecretTier
  pub envelope : Sealed
  pub dek_blindbox : Option BlindBox
  pub approval : Option Bytes

pub record NamedSecretInput : Type 0 where
  pub name : Bytes
  pub tier : SecretTier
  pub env : Option Bytes
  pub key : Option Bytes
  pub envelope : Sealed
  pub dek_blindbox : Option BlindBox
  pub approval : Option Bytes

pub record OpenedSecret : Type 0 where
  pub name : Bytes
  pub plaintext : Bytes

-- The agent's key pair does not change and is not part of it.
pub record AgentShared : Type 0 where
  pub state : AgentState
  pub master : AgentMasterCache

abbrev pub is_name_start : ℕ → Bool
is_name_start c = c == b'_' || is_upper c || is_lower c

abbrev pub is_name_byte : ℕ → Bool
is_name_byte c = c == b'_' || is_upper c || is_lower c || is_digit c

unfoldable pub validate_shell_name : Bytes → Result UseError (Unit {0})
validate_shell_name [] = err invalid_name
validate_shell_name (c ∷ cs) = bail_if (not (is_name_start c && all is_name_byte cs)) invalid_name

unfoldable pub reject_agent_one_shot_secret_fields :
    Option BlindBox → Option Bytes → Result UseError (Unit {0})
reject_agent_one_shot_secret_fields dek_blindbox approval =
    bail_if (is_some dek_blindbox || is_some approval) one_shot_fields

-- The readings of the clock, and what other threads do between the locked sections.
pub record Turn : Type 0 where
  pub first : ℕ
  pub second : ℕ
  pub purged_at : ℕ
  pub active_at : ℕ
  pub master_first : ℕ
  pub master_now : ℕ
  pub master_later : ℕ
  pub master_loaded : Result UseError Bytes
  pub master_waiting : AgentMasterCache → AgentMasterCache
  pub master_during : AgentMasterCache → AgentMasterCache
  pub before_master : AgentShared → AgentShared
  pub after_master : AgentShared → AgentShared
  pub after_open : AgentShared → AgentShared

abbrev pub live_grant : ℕ → GrantKey → Action AgentShared UseError GrantEntry
live_grant now scope agent = (agent, map_err refused (get_live_grant now agent.state scope))

abbrev pub others : (AgentShared → AgentShared) → Action AgentShared UseError (Unit {0})
others f agent = (f agent, ok tt)

abbrev pub get_master : Turn → Action AgentShared UseError Bytes
get_master t agent =
    let (master, r) =
      MasterCache.get t.master_first t.master_now t.master_later t.master_loaded t.master_waiting
        t.master_during agent.master in
    (record agent { master = master }, r)

unfoldable pub master_for : Turn → Bool → Action AgentShared UseError (Option Bytes)
master_for t false = done (ok none)
master_for t true = get_master t >>= λ master. done (ok (some master))

abbrev pub record_use : Turn → Action AgentShared UseError (Unit {0})
record_use t agent =
    (record agent { state = record_activity t.purged_at t.active_at agent.state }, ok tt)

unfoldable pub open_with_grant :
    {T : Type 0}
    → Turn
    → GrantKey
    → Bool
    → (GrantEntry → Option Bytes → Result UseError T)
    → Action AgentShared UseError T
unfolding master_for
open_with_grant t scope needs_standard_master opener = do
  checked ← live_grant t.first scope
  others t.before_master
  master ← master_for t needs_standard_master
  others t.after_master
  grant ← live_grant t.second scope
  opened ← done (opener grant master)
  others t.after_open
  record_use t
  done (ok opened)

module _ (c : Crypto) (hex : Hex) where
  unfoldable pub open_secret_with_grant : Bytes → Sealed → GrantEntry → Result UseError Bytes
  open_secret_with_grant name envelope grant =
      elim (lookup (record { purpose = deliver; name = name; scheme = none; digest_hex = none })
        grant.deks) [
          | none ↦ err not_covered
          | some dek ↦ map_err core (open_with_dek c dek name envelope)
        ]

  unfoldable pub open_signing_key_with_grant :
      Bytes → Sealed → Bytes → Bytes → GrantEntry → Result UseError Bytes
  open_signing_key_with_grant name envelope scheme digest grant =
      elim (lookup
        (record {
          purpose = sign;
          name = name;
          scheme = some scheme;
          digest_hex = some (hex.encode digest);
        })
        grant.deks) [
          | none ↦ err not_covered
          | some dek ↦ map_err core (open_with_dek c dek name envelope)
        ]

  unfoldable pub open_agent_secret :
      Bytes → SecretTier → Sealed → GrantEntry → Option Bytes → Result UseError Bytes
  open_agent_secret name standard envelope grant none = err master_required
  open_agent_secret name standard envelope grant (some master) =
      map_err core (open_sealed c master name envelope)
  open_agent_secret name protected envelope grant standard_master =
      open_secret_with_grant name envelope grant
