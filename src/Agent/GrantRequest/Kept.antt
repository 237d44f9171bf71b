-- ===== src/Agent/GrantRequest/Kept.antt =====
-- What one input of a grant request must satisfy, and the key and nonce that are kept of it.
use avault.Prelude.{
  ℕ, ◌+◌, ◌-◌, ◌/◌, ◌^◌, ◌≤◌, ◌<◌, ◌≡◌, refl, sym, ap, ◌∙◌, ◌||◌, none, some, arith, ltb, is_some,
  length,
}
use avault.Prelude.Bytes.{Bytes}
use avault.Prelude.Result.{
  ok, bail_if, or_fail, map_err, map_err-eq-ok, or_fail-eq-ok, bind-eq-ok, ok-injective,
}
use avault.Agent.Grants.{AgentDekPurpose, deliver, sign, AgentDekKey}
use avault.BlindBox.{Hpke, open_blind_box, BlindBoxContext}
use avault.BlindBox.Contexts.{deliver_context, sign_context}
use avault.Agent.GrantRequest.{
  blind_box, scheme_required, digest_required, signing_fields_in_deliver, approval_expired,
  approval_expiration_invalid, nonce_not_base64, nonce_invalid_length, ApprovalContextInput,
  ApprovalContext, AgentDekInput, Readings, Hex, nanos, checked_add, decode_hex_32,
  agent_deliver_operation_hash, agent_sign_operation_hash, deliver_key, sign_key, context_and_key,
  parse_approval_context, approval_expiry_instant,
}

module _ (h : Hpke) (hex : Hex) (private_key : Bytes) (grant_id : Bytes) (ttl_secs : ℕ) where
  -- The blind box of an input opens to that key, under the context of the approved operation: a
  -- delivery names the secret, and a signature also its scheme and digest.
  abbrev pub IsReleased : AgentDekPurpose → AgentDekInput → Bytes → AgentDekKey → Bytes → Type 0
  IsReleased deliver dek nonce key released =
      (dek.scheme ≡ none)
      × (dek.digest ≡ none)
      × (key ≡ record { purpose = deliver; name = dek.name; scheme = none; digest_hex = none })
      × (hash : Bytes) × (agent_deliver_operation_hash h hex dek.name ttl_secs ≡ ok hash)
      × (open_blind_box h private_key dek.dek_blindbox
            (deliver_context grant_id dek.name nonce dek.approval.expires_at_unix hash)
          ≡ ok released)
  IsReleased sign dek nonce key released =
      (scheme : Bytes) × (digest_hex : Bytes) × (digest : Bytes) × (dek.scheme ≡ some scheme)
      × (dek.digest ≡ some digest_hex)
      × (decode_hex_32 h hex digest_hex ≡ ok digest)
      × (key ≡ record {
        purpose = sign;
        name = dek.name;
        scheme = some scheme;
        digest_hex = some (hex.encode digest);
      })
      × (hash : Bytes) × (agent_sign_operation_hash h hex scheme digest ttl_secs ≡ ok hash)
      × (open_blind_box h private_key dek.dek_blindbox
            (sign_context grant_id dek.name scheme digest nonce dek.approval.expires_at_unix hash)
          ≡ ok released)

  -- A nonce of 16 to 128 bytes stands in an approval that had not expired, and is kept until then; a
  -- key of 32 bytes came out of the blind box.
  pub record IsKept (purpose : AgentDekPurpose) (clock : Readings) (dek : AgentDekInput)
      (key : AgentDekKey) (released nonce : Bytes) (expires_at : ℕ) : Type 0 where
    pub nonce_read : h.base64_decode dek.approval.nonce ≡ some nonce
    pub nonce_low : 16 ≤ length nonce
    pub nonce_high : length nonce ≤ 128
    pub in_time : clock.validated_at / 10 ^ 9 < dek.approval.expires_at_unix
    pub expiry : expires_at ≡ clock.instant + (nanos dek.approval.expires_at_unix - clock.system)
    pub released_from : IsReleased purpose dek nonce key released
    pub released_size : length released ≡ 32

  pub parse_approval_context-eq-ok :
      (input : ApprovalContextInput) {a : ApprovalContext}
      → parse_approval_context h hex input ≡ ok a
      → (h.base64_decode input.nonce ≡ some a.nonce)
        × (16 ≤ length a.nonce)
        × (length a.nonce ≤ 128)
        × (a.expires_at_unix ≡ input.expires_at_unix)
  unfolding parse_approval_context
  parse_approval_context-eq-ok input {a} q =
      let (nonce, e, q₁) =
        bind-eq-ok (or_fail (h.base64_decode input.nonce) nonce_not_base64) _ q in
      let (u, s, q₂) =
        bind-eq-ok (bail_if (ltb (length nonce) 16 || ltb 128 (length nonce)) nonce_invalid_length)
          _ q₁ in
      let same : record { nonce = nonce; expires_at_unix = input.expires_at_unix } ≡ a =
        ok-injective q₂ in
      let read = or_fail-eq-ok (h.base64_decode input.nonce) nonce_not_base64 e in
      rw (← same) (read, ground arith, ground arith, refl)

  pub approval_expiry_instant-eq-ok :
      (now_instant now expires_at_unix : ℕ) {e : ℕ}
      → approval_expiry_instant now_instant now expires_at_unix ≡ ok e
      → e ≡ now_instant + (nanos expires_at_unix - now)
  unfolding approval_expiry_instant
  approval_expiry_instant-eq-ok now_instant now expires_at_unix q =
      let (at, a, q₁) =
        bind-eq-ok (or_fail (checked_add 0 (nanos expires_at_unix)) approval_expiration_invalid) _
          q in
      let (u, b, q₂) = bind-eq-ok (bail_if (ltb at now) approval_expired) _ q₁ in ground arith

  pub context_and_key-IsReleased :
      (purpose : AgentDekPurpose) (dek : AgentDekInput) (nonce released : Bytes)
      (context : BlindBoxContext) (key : AgentDekKey)
      → context_and_key h hex purpose grant_id ttl_secs dek
          (record { nonce = nonce; expires_at_unix = dek.approval.expires_at_unix })
        ≡ ok (context, key)
      → open_blind_box h private_key dek.dek_blindbox context ≡ ok released
      → IsReleased purpose dek nonce key released
  unfolding context_and_key deliver_key sign_key
  context_and_key-IsReleased deliver dek nonce released context key q o =
      let (u, none_given, q₁) =
        bind-eq-ok (bail_if (is_some dek.scheme || is_some dek.digest) signing_fields_in_deliver) _
          q in
      let (hash, e, q₂) =
        bind-eq-ok (map_err blind_box (agent_deliver_operation_hash h hex dek.name ttl_secs)) _
          q₁ in
      let p = ok-injective q₂ in
      (
        ground arith,
        ground arith,
        sym (ap (λ p. p.1) p),
        hash,
        map_err-eq-ok blind_box (agent_deliver_operation_hash h hex dek.name ttl_secs) e,
        ap (open_blind_box h private_key dek.dek_blindbox) (ap (λ p. p.0) p) ∙ o,
      )
  context_and_key-IsReleased sign dek nonce released context key q o =
      let (scheme, s, q₁) = bind-eq-ok (or_fail dek.scheme scheme_required) _ q in
      let (digest_hex, d, q₂) = bind-eq-ok (or_fail dek.digest digest_required) _ q₁ in
      let (digest, x, q₃) = bind-eq-ok (decode_hex_32 h hex digest_hex) _ q₂ in
      let (hash, e, q₄) =
        bind-eq-ok (map_err blind_box (agent_sign_operation_hash h hex scheme digest ttl_secs)) _
          q₃ in
      let p = ok-injective q₄ in
      (
        scheme,
        digest_hex,
        digest,
        or_fail-eq-ok dek.scheme scheme_required s,
        or_fail-eq-ok dek.digest digest_required d,
        x,
        sym (ap (λ p. p.1) p),
        hash,
        map_err-eq-ok blind_box (agent_sign_operation_hash h hex scheme digest ttl_secs) e,
        ap (open_blind_box h private_key dek.dek_blindbox) (ap (λ p. p.0) p) ∙ o,
      )
