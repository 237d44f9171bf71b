-- ===== src/Agent/GrantRequest.antt =====
-- The agent's `grant` request, from crates/avault-cli/src/main.rs: the loop of
-- `handle_agent_frame_inner` over the released keys, `parse_approval_context`,
-- `approval_expiry_instant`, `validate_approval_not_expired`, `decode_hex_32`, and the operation
-- hashes. Times are nanoseconds: an `Instant` from the start of its clock, a `SystemTime` from the
-- Unix epoch, which the clock is not before. The readings of the clocks stand beside the key during
-- whose turn they are made. Locked pages are always granted.
pub mod Kept
pub mod Collect
pub mod Inputs
pub mod Handle
pub mod Prepared
pub mod Granted
use avault.Prelude.{
  ℕ, ◌+◌, ◌-◌, ◌*◌, ◌/◌, ◌^◌, not, ◌||◌, Option, none, some, List, [], ◌∷◌, ltb, leb, ◌==◌,
  if◌then◌else◌, is_some, length,
}
use avault.Prelude.Bytes.{Bytes, codes, eq_bytes}
use avault.Prelude.Result.{Result, ok, err, ◌>>=◌, ◌>>◌, bail_if, or_fail, map_err}
use avault.Agent.Grants.{GrantKey, AgentDekPurpose, deliver, sign, AgentDekKey, GrantError}
use avault.BlindBox.{
  BlindBox, BlindBoxError, BlindBoxContext, agent_deliver, agent_sign, with_approval,
  with_operation_hash, be_bytes, Hpke, operation_hash,
}

pub data RequestError : Type 0 where
  no_dek grant_id_required ttl_not_positive ttl_exceeds_maximum expiration_invalid : RequestError
  unsupported_purpose : RequestError
  nonce_not_base64 nonce_invalid_length approval_expired approval_expiration_invalid : RequestError
  duplicate_nonce signing_fields_in_deliver scheme_required digest_required digest_not_hex :
      RequestError
  duplicate_dek dek_invalid_length : RequestError
  blind_box : BlindBoxError → RequestError
  refused : GrantError → RequestError

pub record ApprovalContextInput : Type 0 where
  pub nonce : Bytes
  pub expires_at_unix : ℕ

pub record ApprovalContext : Type 0 where
  pub nonce : Bytes
  pub expires_at_unix : ℕ

pub record AgentDekInput : Type 0 where
  pub name : Bytes
  pub dek_blindbox : BlindBox
  pub approval : ApprovalContextInput
  pub scheme : Option Bytes
  pub digest : Option Bytes

-- The clocks while one key is handled.
pub record Readings : Type 0 where
  pub validated_at : ℕ
  pub instant : ℕ
  pub system : ℕ

pub record AgentGrantRequest : Type 0 where
  pub grant_id : Bytes
  pub purpose : Option Bytes
  pub ttl_secs : Option ℕ
  pub deks : List (Readings × AgentDekInput)

-- The hex crate.
pub record Hex : Type 0 where
  pub decode : Bytes → Option Bytes
  pub encode : Bytes → Bytes

abbrev pub default_agent_grant_ttl_secs : ℕ
default_agent_grant_ttl_secs = 300

abbrev pub max_agent_grant_ttl_secs : ℕ
max_agent_grant_ttl_secs = 24 * 60 * 60

abbrev pub min_approval_nonce_bytes : ℕ
min_approval_nonce_bytes = 16

abbrev pub max_approval_nonce_bytes : ℕ
max_approval_nonce_bytes = 128

abbrev pub nanos : ℕ → ℕ
nanos secs = secs * 10 ^ 9

-- `checked_add` of a time: the seconds are an `i64`.
abbrev pub checked_add : ℕ → ℕ → Option ℕ
checked_add t d = if ltb (t + d) (nanos (2 ^ 63)) then some (t + d) else none

unfoldable pub parse_purpose : Option Bytes → Result RequestError AgentDekPurpose
parse_purpose none = ok deliver
parse_purpose (some text) =
    if eq_bytes text (codes "deliver")
    then ok deliver
    else if eq_bytes text (codes "sign")
    then ok sign
    else err unsupported_purpose

unfoldable pub grant_key_from_id : Bytes → Result RequestError GrantKey
grant_key_from_id [] = err grant_id_required
grant_key_from_id (c ∷ cs) = ok (record { grant_id = c ∷ cs })

unfoldable pub validate_approval_not_expired : ℕ → ℕ → Result RequestError (Unit {0})
validate_approval_not_expired now expires_at_unix =
    bail_if (leb expires_at_unix (now / 10 ^ 9)) approval_expired

unfoldable pub approval_expiry_instant : ℕ → ℕ → ℕ → Result RequestError ℕ
approval_expiry_instant now_instant now expires_at_unix = do
  expires_at ← or_fail (checked_add 0 (nanos expires_at_unix)) approval_expiration_invalid
  bail_if (ltb expires_at now) approval_expired
  or_fail (checked_add now_instant (expires_at - now)) approval_expiration_invalid

unfoldable pub zeroizing_vec_to_key32 : Bytes → Result RequestError Bytes
zeroizing_vec_to_key32 value = if length value == 32 then ok value else err dek_invalid_length

module _ (h : Hpke) (hex : Hex) where
  unfoldable pub parse_approval_context : ApprovalContextInput → Result RequestError ApprovalContext
  parse_approval_context input = do
    nonce ← or_fail (h.base64_decode input.nonce) nonce_not_base64
    bail_if
        (ltb (length nonce) min_approval_nonce_bytes || ltb max_approval_nonce_bytes (length nonce))
        nonce_invalid_length
    ok (record { nonce = nonce; expires_at_unix = input.expires_at_unix })

  unfoldable pub decode_hex_32 : Bytes → Result RequestError Bytes
  decode_hex_32 text = do
    bail_if (not (length text == 64)) digest_not_hex
    bytes ← or_fail (hex.decode text) digest_not_hex
    bail_if (not (length bytes == 32)) digest_not_hex
    ok bytes

  unfoldable pub agent_deliver_operation_hash : Bytes → ℕ → Result BlindBoxError Bytes
  agent_deliver_operation_hash name ttl_secs =
      operation_hash h (codes "agent-deliver" ∷ name ∷ be_bytes 8 ttl_secs ∷ [])

  unfoldable pub agent_sign_operation_hash : Bytes → Bytes → ℕ → Result BlindBoxError Bytes
  agent_sign_operation_hash scheme digest ttl_secs =
      operation_hash h (codes "agent-sign" ∷ scheme ∷ digest ∷ be_bytes 8 ttl_secs ∷ [])

  -- The `match purpose` of the loop: the context, and the key of the map.
  unfoldable pub deliver_key :
      Bytes
      → ℕ
      → AgentDekInput
      → ApprovalContext
      → Result RequestError (BlindBoxContext × AgentDekKey)
  deliver_key grant_id ttl_secs dek approval = do
    bail_if (is_some dek.scheme || is_some dek.digest) signing_fields_in_deliver
    hash ← map_err blind_box (agent_deliver_operation_hash dek.name ttl_secs)
    ok (
      with_operation_hash
          (with_approval (agent_deliver grant_id dek.name) approval.nonce approval.expires_at_unix)
          hash,
      record { purpose = deliver; name = dek.name; scheme = none; digest_hex = none },
    )

  unfoldable pub sign_key :
      Bytes
      → ℕ
      → AgentDekInput
      → ApprovalContext
      → Result RequestError (BlindBoxContext × AgentDekKey)
  sign_key grant_id ttl_secs dek approval = do
    scheme ← or_fail dek.scheme scheme_required
    digest_hex ← or_fail dek.digest digest_required
    digest ← decode_hex_32 digest_hex
    hash ← map_err blind_box (agent_sign_operation_hash scheme digest ttl_secs)
    ok (
      with_operation_hash
          (with_approval (agent_sign grant_id dek.name scheme digest) approval.nonce
            approval.expires_at_unix)
          hash,
      record {
        purpose = sign;
        name = dek.name;
        scheme = some scheme;
        digest_hex = some (hex.encode digest);
      },
    )

  unfoldable pub context_and_key :
      AgentDekPurpose
      → Bytes
      → ℕ
      → AgentDekInput
      → ApprovalContext
      → Result RequestError (BlindBoxContext × AgentDekKey)
  unfolding deliver_key sign_key
  context_and_key deliver grant_id ttl_secs dek approval =
      deliver_key grant_id ttl_secs dek approval
  context_and_key sign grant_id ttl_secs dek approval = sign_key grant_id ttl_secs dek approval
