-- ===== src/Agent/GrantRequest/Prepared.antt =====
-- What a grant request asks for once it is read, before it is published.
use mathlib.Core.Path.{subst}
use native.Mathlib.Nat.{zero-add, le_refl}
use avault.Prelude.{ℕ, ◌+◌, ◌≤◌, ◌≡◌, refl, Option, none, some, [], ◌∷◌, arith, ltb, ◌==◌, length}
use avault.Prelude.Bytes.{Bytes}
use avault.Prelude.Result.{ok, bail_if, or_fail, bind-eq-ok, ok-injective}
use avault.Agent.Grants.{AgentDekPurpose, GrantKey, grant_key_eq}
use avault.Prelude.Maps.{bytes_eq}
use avault.BlindBox.{Hpke}
use avault.Agent.GrantRequest.{
  no_dek, ttl_not_positive, ttl_exceeds_maximum, expiration_invalid, AgentGrantRequest, Hex,
  max_agent_grant_ttl_secs, nanos, checked_add, parse_purpose, grant_key_from_id,
}
use avault.Agent.GrantRequest.Collect.{Collected, add_deks, add_deks-IsSound, IsSound, earliest}
use avault.Agent.GrantRequest.Inputs.{Collects, nothing, add_deks-Collects}
use avault.Agent.GrantRequest.Handle.{Prepared, is_nil, ttl_or_default, prepare_ttl, prepare_grant}

-- The time that is asked for, which is five minutes where the request leaves it out.
abbrev pub AsksFor : Option ℕ → ℕ → Type 0
AsksFor none ttl_secs = ttl_secs ≡ 300
AsksFor (some asked) ttl_secs = ttl_secs ≡ asked

pub record IsPrepared (h : Hpke) (hex : Hex) (private_key : Bytes) (now : ℕ)
    (request : AgentGrantRequest) (p : Prepared) : Type 0 where
  pub purpose : AgentDekPurpose
  pub named : p.key.grant_id ≡ request.grant_id
  pub purpose_read : parse_purpose request.purpose ≡ ok purpose
  pub asked : AsksFor request.ttl_secs p.ttl_secs
  pub collects :
      Collects h hex private_key request.grant_id p.ttl_secs purpose request.deks p.collected.deks
        p.collected.used_nonces
  pub sound : IsSound (now + nanos p.ttl_secs) (length request.deks) p.collected
  pub ttl_positive : 1 ≤ p.ttl_secs
  pub ttl_bounded : p.ttl_secs ≤ max_agent_grant_ttl_secs

ttl_or_default-AsksFor : (ttl_secs : Option ℕ) → AsksFor ttl_secs (ttl_or_default ttl_secs)
ttl_or_default-AsksFor none = refl
ttl_or_default-AsksFor (some asked) = refl

checked_add-eq-ok :
    (t d : ℕ) {e : ℕ} → or_fail (checked_add t d) expiration_invalid ≡ ok e → e ≡ t + d
checked_add-eq-ok t d q = ground arith

grant_key_from_id-eq-ok :
    (grant_id : Bytes) {key : GrantKey}
    → grant_key_from_id grant_id ≡ ok key
    → key.grant_id ≡ grant_id
unfolding grant_key_from_id
grant_key_from_id-eq-ok [] q = cc
grant_key_from_id-eq-ok (c ∷ cs) q = ground arith

module _ (h : Hpke) (hex : Hex) (private_key : Bytes) where
  prepare_ttl-IsPrepared :
      (now : ℕ) (request : AgentGrantRequest) (key : GrantKey) (ttl_secs : ℕ) {p : Prepared}
      → key.grant_id ≡ request.grant_id
      → AsksFor request.ttl_secs ttl_secs
      → prepare_ttl h hex private_key now request key ttl_secs ≡ ok p
      → IsPrepared h hex private_key now request p
  unfolding prepare_ttl earliest
  prepare_ttl-IsPrepared now request key ttl_secs {p} named asked q =
      let (u, a, q1) = bind-eq-ok (bail_if (ttl_secs == 0) ttl_not_positive) _ q in
      let (u', b, q2) =
        bind-eq-ok (bail_if (ltb max_agent_grant_ttl_secs ttl_secs) ttl_exceeds_maximum) _ q1 in
      let (limit, c, q3) =
        bind-eq-ok (or_fail (checked_add now (nanos ttl_secs)) expiration_invalid) _ q2 in
      let (purpose, d, q4) = bind-eq-ok (parse_purpose request.purpose) _ q3 in
      let start : Collected = record { deks = []; used_nonces = []; grant_expires_at = limit } in
      let (collected, e, q5) =
        bind-eq-ok (add_deks h hex private_key purpose key.grant_id ttl_secs start request.deks) _
          q4 in
      let sound : IsSound limit (length request.deks) collected =
        subst (λ n. IsSound limit n collected) (zero-add (length request.deks))
          (add_deks-IsSound h hex private_key purpose key.grant_id ttl_secs limit 0 start
            request.deks e
            (record {
              keys_counted = refl;
              nonces_counted = refl;
              distinct = tt;
              within = tt;
              limited = le_refl limit;
              expires = refl;
            })) in
      let made : IsPrepared h hex private_key now request
          (record { key = key; ttl_secs = ttl_secs; collected = collected }) =
        record {
          purpose = purpose;
          named = named;
          purpose_read = d;
          asked = asked;
          collects =
              subst
                (λ g.
                  Collects h hex private_key g ttl_secs purpose request.deks collected.deks
                    collected.used_nonces)
                named
                (add_deks-Collects h hex private_key key.grant_id ttl_secs purpose start []
                  request.deks nothing e);
          sound =
              subst (λ l. IsSound l (length request.deks) collected)
                (checked_add-eq-ok now (nanos ttl_secs) c) sound;
          ttl_positive = ground arith;
          ttl_bounded = ground arith;
        } in
      subst (IsPrepared h hex private_key now request) (ok-injective q5) made

  pub prepare_grant-IsPrepared :
      (now : ℕ) (request : AgentGrantRequest) {p : Prepared}
      → prepare_grant h hex private_key now request ≡ ok p
      → IsPrepared h hex private_key now request p
  unfolding prepare_grant
  prepare_grant-IsPrepared now request q =
      let (u, a, q1) = bind-eq-ok (bail_if (is_nil request.deks) no_dek) _ q in
      let (key, k, q2) = bind-eq-ok (grant_key_from_id request.grant_id) _ q1 in
      prepare_ttl-IsPrepared now request key (ttl_or_default request.ttl_secs)
        (grant_key_from_id-eq-ok request.grant_id k) (ttl_or_default-AsksFor request.ttl_secs) q2
