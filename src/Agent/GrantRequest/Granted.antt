-- ===== src/Agent/GrantRequest/Granted.antt =====
-- What a granted request publishes, and what a refused one leaves.
use mathlib.Core.Path.{subst}
use avault.Prelude.{ℕ, ◌+◌, ◌≤◌, ◌≡◌, refl, ◌⊎◌, inl, inr, List, arith, length, All}
use avault.Prelude.Bytes.{Bytes}
use avault.Prelude.Result.{Result, ok, err, Result-cases}
use avault.Agent.Grants.{
  AgentDekPurpose, GrantKey, GrantEntry, grant_key_eq, AgentState, purge, publish_grant,
}
use avault.Prelude.Maps.{bytes_eq}
use avault.Agent.Grants.Purge.{publish_grant-err}
use avault.BlindBox.{Hpke}
use avault.Agent.GrantRequest.{
  RequestError, AgentGrantRequest, Hex, max_agent_grant_ttl_secs, nanos, parse_purpose,
}
use avault.Agent.GrantRequest.Collect.{Distinct, earliest}
use avault.Agent.GrantRequest.Inputs.{Collects}
use avault.Agent.GrantRequest.Handle.{
  Prepared, grant_of, prepare_grant, publish_prepared, handle_grant,
}
use avault.Agent.GrantRequest.Prepared.{AsksFor, IsPrepared, prepare_grant-IsPrepared}

-- A request that was granted: one grant is published, for one key and one nonce of each input, and
-- it ends at the earliest of the time asked for and of the approvals.
pub record Granted (h : Hpke) (hex : Hex) (private_key : Bytes) (now purged_at later : ℕ)
    (s : AgentState) (request : AgentGrantRequest) (after : AgentState) (granted ttl_secs : ℕ)
    : Type 0 where
  pub key : GrantKey
  pub grant : GrantEntry
  pub nonces : List (Bytes × ℕ)
  pub purpose : AgentDekPurpose
  pub named : key.grant_id ≡ request.grant_id
  pub purpose_read : parse_purpose request.purpose ≡ ok purpose
  pub asked : AsksFor request.ttl_secs ttl_secs
  pub published : publish_grant purged_at later s key grant nonces ≡ (after, ok tt)
  pub collects :
      Collects h hex private_key request.grant_id ttl_secs purpose request.deks grant.deks nonces
  pub keys_counted : length grant.deks ≡ granted
  pub nonces_counted : length nonces ≡ granted
  pub all_opened : granted ≡ length request.deks
  pub distinct : Distinct nonces
  pub within : All (λ p. grant.expires_at ≤ p.1) nonces
  pub limited : grant.expires_at ≤ now + nanos ttl_secs
  pub expires : grant.expires_at ≡ earliest (now + nanos ttl_secs) nonces
  pub ttl_positive : 1 ≤ ttl_secs
  pub ttl_bounded : ttl_secs ≤ max_agent_grant_ttl_secs

module _ (h : Hpke) (hex : Hex) (private_key : Bytes) where
  publish_prepared-Granted :
      (now purged_at later : ℕ) (s : AgentState) (request : AgentGrantRequest) (p : Prepared)
      {granted ttl_secs : ℕ}
      → IsPrepared h hex private_key now request p
      → (publish_prepared h hex private_key purged_at later s (ok p)).1 ≡ ok (granted, ttl_secs)
      → Granted h hex private_key now purged_at later s request
          (publish_prepared h hex private_key purged_at later s (ok p)).0
          granted
          ttl_secs
  publish_prepared-Granted now purged_at later s request p {granted} {ttl_secs} v q =
      let pg =
        publish_grant purged_at later s p.key (grant_of p.collected) p.collected.used_nonces in
      elim (Result-cases pg.1) [
        | inl (done, e) ↦
            let total : length p.collected.deks ≡ granted = ground arith in
            let same : p.ttl_secs ≡ ttl_secs = ground arith in
            record {
              key = p.key;
              grant = grant_of p.collected;
              nonces = p.collected.used_nonces;
              purpose = v.purpose;
              named = v.named;
              purpose_read = v.purpose_read;
              asked = subst (AsksFor request.ttl_secs) same v.asked;
              collects =
                  subst
                    (λ t.
                      Collects h hex private_key request.grant_id t v.purpose request.deks
                        p.collected.deks p.collected.used_nonces)
                    same v.collects;
              expires =
                  subst
                    (λ t.
                      p.collected.grant_expires_at
                      ≡ earliest (now + nanos t) p.collected.used_nonces)
                    same v.sound.expires;
              published = λ i. (pg.0, e i);
              keys_counted = total;
              nonces_counted = omega (arith, v.sound.nonces_counted, v.sound.keys_counted, total);
              all_opened = omega (arith, v.sound.keys_counted, total);
              distinct = v.sound.distinct;
              within = v.sound.within;
              limited = omega (arith, v.sound.limited, same);
              ttl_positive = omega (arith, v.ttl_positive, same);
              ttl_bounded = omega (arith, v.ttl_bounded, same);
            }
        | inr (x, e) ↦ absurd (ground arith)
      ]

  publish_prepared-err :
      (purged_at later : ℕ) (s : AgentState) (r : Result RequestError Prepared) (e : RequestError)
      → (publish_prepared h hex private_key purged_at later s r).1 ≡ err e
      → ((publish_prepared h hex private_key purged_at later s r).0 ≡ s)
        ⊎ ((publish_prepared h hex private_key purged_at later s r).0 ≡ purge purged_at s)
  publish_prepared-err purged_at later s (err x) e q = inl refl
  publish_prepared-err purged_at later s (ok p) e q =
      let pg =
        publish_grant purged_at later s p.key (grant_of p.collected) p.collected.used_nonces in
      elim (Result-cases pg.1) [
        | inl (done, k) ↦ absurd (ground arith)
        | inr (x, k) ↦
            inr
              (publish_grant-err purged_at later s p.key (grant_of p.collected)
                p.collected.used_nonces x k).0
      ]

  publish_prepared-ok :
      (now purged_at later : ℕ) (s : AgentState) (request : AgentGrantRequest)
      (r : Result RequestError Prepared) {granted ttl_secs : ℕ}
      → ((p : Prepared) → r ≡ ok p → IsPrepared h hex private_key now request p)
      → (publish_prepared h hex private_key purged_at later s r).1 ≡ ok (granted, ttl_secs)
      → Granted h hex private_key now purged_at later s request
          (publish_prepared h hex private_key purged_at later s r).0
          granted
          ttl_secs
  publish_prepared-ok now purged_at later s request (err x) v q = absurd (cc)
  publish_prepared-ok now purged_at later s request (ok p) v q =
      publish_prepared-Granted now purged_at later s request p (v p refl) q

  -- A grant request that succeeds publishes one grant under its id, with one key and one nonce of
  -- each input in turn and no nonce twice: the key is named after its input and came, 32 bytes
  -- long, out of its blind box under the context of the approved delivery or signature, and the
  -- nonce, of 16 to 128 bytes, is that of its approval, which had not expired. The time is the one
  -- asked for, or 300 s where none is, positive and at most a day, and the grant ends at the
  -- earliest of that time and of the approvals.
  pub handle_grant-Granted :
      (now purged_at later : ℕ) (s : AgentState) (request : AgentGrantRequest)
      {granted ttl_secs : ℕ}
      → (handle_grant h hex private_key now purged_at later s request).1 ≡ ok (granted, ttl_secs)
      → Granted h hex private_key now purged_at later s request
          (handle_grant h hex private_key now purged_at later s request).0
          granted
          ttl_secs
  unfolding handle_grant
  handle_grant-Granted now purged_at later s request q =
      publish_prepared-ok now purged_at later s request
        (prepare_grant h hex private_key now request)
        (λ p e. prepare_grant-IsPrepared h hex private_key now request e) q

  -- A grant request that is refused leaves the state as it was or only purged.
  handle_grant-err :
      (now purged_at later : ℕ) (s : AgentState) (request : AgentGrantRequest) (e : RequestError)
      → (handle_grant h hex private_key now purged_at later s request).1 ≡ err e
      → ((handle_grant h hex private_key now purged_at later s request).0 ≡ s)
        ⊎ ((handle_grant h hex private_key now purged_at later s request).0 ≡ purge purged_at s)
  unfolding handle_grant
  handle_grant-err now purged_at later s request e q =
      publish_prepared-err purged_at later s (prepare_grant h hex private_key now request) e q
