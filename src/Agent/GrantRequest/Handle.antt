-- ===== src/Agent/GrantRequest/Handle.antt =====
-- The `Grant` branch of `handle_agent_frame_inner`.
use avault.Prelude.{ℕ, Bool, true, false, Option, none, some, List, [], ◌∷◌, ltb, ◌==◌, length}
use avault.Prelude.Bytes.{Bytes}
use avault.Prelude.Result.{Result, ok, err, ◌>>=◌, ◌>>◌, bail_if, or_fail, map_err}
use avault.Agent.Grants.{GrantKey, GrantEntry, grant_key_eq, AgentState, publish_grant}
use avault.Prelude.Maps.{bytes_eq}
use avault.BlindBox.{Hpke}
use avault.Agent.GrantRequest.{
  RequestError, no_dek, ttl_not_positive, ttl_exceeds_maximum, expiration_invalid, refused,
  AgentGrantRequest, Hex, default_agent_grant_ttl_secs, max_agent_grant_ttl_secs, nanos,
  checked_add, parse_purpose, grant_key_from_id,
}
use avault.Agent.GrantRequest.Collect.{Collected, add_deks}

-- What the request publishes.
pub record Prepared : Type 0 where
  pub key : GrantKey
  pub ttl_secs : ℕ
  pub collected : Collected

abbrev pub is_nil {ℓ} : {A : Type ℓ} → List A → Bool
is_nil [] = true
is_nil (x ∷ xs) = false

abbrev pub ttl_or_default : Option ℕ → ℕ
ttl_or_default none = default_agent_grant_ttl_secs
ttl_or_default (some ttl_secs) = ttl_secs

abbrev pub grant_of : Collected → GrantEntry
grant_of c = record { expires_at = c.grant_expires_at; deks = c.deks }

module _ (h : Hpke) (hex : Hex) (private_key : Bytes) where
  unfoldable pub prepare_ttl : ℕ → AgentGrantRequest → GrantKey → ℕ → Result RequestError Prepared
  prepare_ttl now request key ttl_secs = do
    bail_if (ttl_secs == 0) ttl_not_positive
    bail_if (ltb max_agent_grant_ttl_secs ttl_secs) ttl_exceeds_maximum
    requested_expires_at ← or_fail (checked_add now (nanos ttl_secs)) expiration_invalid
    purpose ← parse_purpose request.purpose
    collected ←
        add_deks h hex private_key purpose key.grant_id ttl_secs
          (record { deks = []; used_nonces = []; grant_expires_at = requested_expires_at })
          request.deks
    ok (record { key = key; ttl_secs = ttl_secs; collected = collected })

  unfoldable pub prepare_grant : ℕ → AgentGrantRequest → Result RequestError Prepared
  unfolding prepare_ttl
  prepare_grant now request = do
    bail_if (is_nil request.deks) no_dek
    key ← grant_key_from_id request.grant_id
    prepare_ttl now request key (ttl_or_default request.ttl_secs)

  -- With the state locked, at two readings of the clock; the result is `granted` and `ttl_secs`.
  abbrev pub publish_prepared :
      ℕ → ℕ → AgentState → Result RequestError Prepared → AgentState × Result RequestError (ℕ × ℕ)
  publish_prepared purged_at later s (err e) = (s, err e)
  publish_prepared purged_at later s (ok p) =
      let (s', r) =
        publish_grant purged_at later s p.key (grant_of p.collected) p.collected.used_nonces in
      (s', map_err refused r >> ok (length p.collected.deks, p.ttl_secs))

  unfoldable pub handle_grant :
      ℕ → ℕ → ℕ → AgentState → AgentGrantRequest → AgentState × Result RequestError (ℕ × ℕ)
  handle_grant now purged_at later s request =
      publish_prepared purged_at later s (prepare_grant now request)
