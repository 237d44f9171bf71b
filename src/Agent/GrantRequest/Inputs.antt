-- ===== src/Agent/GrantRequest/Inputs.antt =====
-- The loop of a grant request keeps just one key and one nonce of each input, in their order.
use avault.Prelude.{
  ℕ, ◌+◌, ◌-◌, ◌≡◌, sym, ap, ◌∙◌, List, [], ◌∷◌, ◌++◌, append_assoc, append-nil, arith, is_some,
  length,
}
use mathlib.Core.Path.{subst}
use avault.Prelude.Bytes.{Bytes}
use avault.Prelude.Result.{ok, bail_if, map_err, map_err-eq-ok, bind-eq-ok, ok-injective}
use avault.Prelude.Maps.{lookup}
use avault.Agent.Grants.{AgentDekPurpose, AgentDekKey, dek_key_eq}
use avault.Agent.Grants.Replay.{has_nonce}
use avault.BlindBox.{Hpke, open_blind_box, BlindBoxContext}
use avault.Agent.GrantRequest.{
  duplicate_nonce, duplicate_dek, blind_box, ApprovalContext, AgentDekInput, Readings, Hex, nanos,
  parse_approval_context, validate_approval_not_expired, approval_expiry_instant, context_and_key,
  zeroizing_vec_to_key32,
}
use avault.Agent.GrantRequest.Collect.{Collected, keep_dek, add_dek, add_deks}
use avault.Agent.GrantRequest.Kept.{
  IsKept, parse_approval_context-eq-ok, approval_expiry_instant-eq-ok, context_and_key-IsReleased,
}

-- The keys, the last first, and the nonces that are kept of the inputs.
pub data Collects (h : Hpke) (hex : Hex) (private_key grant_id : Bytes) (ttl_secs : ℕ)
    (purpose : AgentDekPurpose)
    : List (Readings × AgentDekInput) → List (AgentDekKey × Bytes) → List (Bytes × ℕ) → Type 0 where
  nothing : Collects h hex private_key grant_id ttl_secs purpose [] [] []
  one_more :
      {deks : List (Readings × AgentDekInput)} {keys : List (AgentDekKey × Bytes)}
      {nonces : List (Bytes × ℕ)} (clock : Readings) (dek : AgentDekInput) (key : AgentDekKey)
      (released nonce : Bytes) (expires_at : ℕ)
      → Collects h hex private_key grant_id ttl_secs purpose deks keys nonces
      → IsKept h hex private_key grant_id ttl_secs purpose clock dek key released nonce expires_at
      → Collects h hex private_key grant_id ttl_secs purpose
          (deks ++ (clock, dek) ∷ [])
          ((key, released) ∷ keys)
          (nonces ++ (nonce, expires_at) ∷ [])

module _ (h : Hpke) (hex : Hex) (private_key grant_id : Bytes) (ttl_secs : ℕ)
    (purpose : AgentDekPurpose) where
  keep_dek-IsKept :
      (c : Collected) (clock : Readings) (dek : AgentDekInput) (approval : ApprovalContext) (e : ℕ)
      (context : BlindBoxContext) (key : AgentDekKey) {c' : Collected}
      → parse_approval_context h hex dek.approval ≡ ok approval
      → validate_approval_not_expired clock.validated_at approval.expires_at_unix ≡ ok tt
      → approval_expiry_instant clock.instant clock.system approval.expires_at_unix ≡ ok e
      → context_and_key h hex purpose grant_id ttl_secs dek approval ≡ ok (context, key)
      → keep_dek h hex private_key c dek approval e (context, key) ≡ ok c'
      → (released : Bytes) × IsKept h hex private_key grant_id ttl_secs purpose clock dek key
          released approval.nonce e
        × (c'.deks ≡ (key, released) ∷ c.deks)
        × (c'.used_nonces ≡ c.used_nonces ++ (approval.nonce, e) ∷ [])
  unfolding keep_dek zeroizing_vec_to_key32 validate_approval_not_expired
  keep_dek-IsKept c clock dek approval e context key {c'} a v x k q =
      let (read, low, high, same) =
        parse_approval_context-eq-ok h hex private_key grant_id ttl_secs dek.approval a in
      let (u, fresh, q₁) = bind-eq-ok (bail_if (is_some (lookup key c.deks)) duplicate_dek) _ q in
      let (opened, o, q₂) =
        bind-eq-ok (map_err blind_box (open_blind_box h private_key dek.dek_blindbox context)) _
          q₁ in
      let (released, r, q₃) = bind-eq-ok (zeroizing_vec_to_key32 opened) _ q₂ in
      let is : opened ≡ released = ground arith in
      let size : length released ≡ 32 = ground arith in
      let opens =
        map_err-eq-ok blind_box (open_blind_box h private_key dek.dek_blindbox context) o in
      let last = ok-injective q₃ in
      (
        released,
        record {
          nonce_read = read;
          nonce_low = low;
          nonce_high = high;
          in_time = ground arith;
          expiry =
              approval_expiry_instant-eq-ok h hex private_key grant_id ttl_secs clock.instant
                clock.system approval.expires_at_unix x
              ∙ ap (λ t. clock.instant + (nanos t - clock.system)) same;
          released_from =
              context_and_key-IsReleased h hex private_key grant_id ttl_secs purpose dek
                approval.nonce released context key
                (ap (context_and_key h hex purpose grant_id ttl_secs dek)
                    (sym (ap (λ t. record approval { expires_at_unix = t }) same))
                  ∙ k)
                (opens ∙ ap ok is);
          released_size = size;
        },
        sym (ap (λ z. z.deks) last),
        sym (ap (λ z. z.used_nonces) last),
      )

  add_dek-IsKept :
      (c : Collected) (clock : Readings) (dek : AgentDekInput) {c' : Collected}
      → add_dek h hex private_key purpose grant_id ttl_secs c (clock, dek) ≡ ok c'
      → (key : AgentDekKey) × (released : Bytes) × (nonce : Bytes) × (e : ℕ) × IsKept h hex
          private_key grant_id ttl_secs purpose clock dek key released nonce e
        × (c'.deks ≡ (key, released) ∷ c.deks)
        × (c'.used_nonces ≡ c.used_nonces ++ (nonce, e) ∷ [])
  unfolding add_dek
  add_dek-IsKept c clock dek q =
      let (approval, a, q₁) = bind-eq-ok (parse_approval_context h hex dek.approval) _ q in
      let (u, v, q₂) =
        bind-eq-ok (validate_approval_not_expired clock.validated_at approval.expires_at_unix) _
          q₁ in
      let (e, x, q₃) =
        bind-eq-ok (approval_expiry_instant clock.instant clock.system approval.expires_at_unix) _
          q₂ in
      let (u', fresh, q₄) =
        bind-eq-ok (bail_if (has_nonce approval.nonce c.used_nonces) duplicate_nonce) _ q₃ in
      let ((context, key), k, q₅) =
        bind-eq-ok (context_and_key h hex purpose grant_id ttl_secs dek approval) _ q₄ in
      let (released, kept, keys, nonces) =
        keep_dek-IsKept c clock dek approval e context key a v x k q₅ in
      (key, released, approval.nonce, e, kept, keys, nonces)

  -- The inputs that were seen before stand before those of this run.
  pub add_deks-Collects :
      (c : Collected) (seen deks : List (Readings × AgentDekInput)) {c' : Collected}
      → Collects h hex private_key grant_id ttl_secs purpose seen c.deks c.used_nonces
      → add_deks h hex private_key purpose grant_id ttl_secs c deks ≡ ok c'
      → Collects h hex private_key grant_id ttl_secs purpose (seen ++ deks) c'.deks c'.used_nonces
  unfolding add_deks
  add_deks-Collects c seen [] {c'} v q = rw (← ok-injective q, append-nil) v
  add_deks-Collects c seen ((clock, dek) ∷ deks) {c'} v q =
      let (d, first, later) =
        bind-eq-ok (add_dek h hex private_key purpose grant_id ttl_secs c (clock, dek)) _ q in
      let (key, released, nonce, e, kept, keys, nonces) = add_dek-IsKept c clock dek first in
      let grown : Collects h hex private_key grant_id ttl_secs purpose (seen ++ (clock, dek) ∷ [])
          d.deks d.used_nonces =
        rw (keys, nonces) (one_more clock dek key released nonce e v kept) in
      subst (λ l. Collects h hex private_key grant_id ttl_secs purpose l c'.deks c'.used_nonces)
        (append_assoc seen ((clock, dek) ∷ []) deks)
        (add_deks-Collects d (seen ++ (clock, dek) ∷ []) deks grown later)
