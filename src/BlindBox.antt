-- ===== src/BlindBox.antt =====
-- Blind boxes, crates/avault-core/src/blind_box.rs: the operation context, its associated data, and
-- opening. HPKE, SHA-256 and base64 are other crates: `Hpke` holds them, and `HpkeLaws` what the
-- code relies on. A length beyond `u32`, at which the code panics, is an error of the model.
pub mod Encoding
pub mod Contexts
pub mod Keypair
use avault.Prelude.{
  ℕ, zero, suc, ◌/◌, ◌%◌, ◌^◌, ◌≡◌, ◌≢◌, Bool, not, Option, none, some, List, [], ◌∷◌, ◌++◌, ltb,
  if◌then◌else◌, length,
}
use avault.Prelude.Bytes.{Bytes, codes, eq_bytes}
use avault.Prelude.Result.{Result, ok, err, ◌>>=◌, ◌>>◌, bail_if, or_fail}
use avault.Core.Crypto.{wrap_scheme, wrap_meta_version}

pub data BlindBoxError : Type 0 where
  field_too_long : BlindBoxError
  unsupported_scheme : BlindBoxError
  not_base64 enc_invalid_length open_failed : BlindBoxError

abbrev pub blind_box_scheme : Bytes
blind_box_scheme = codes "hpke-x25519-hkdfsha256-aes256gcm-v1"

abbrev pub blind_box_hpke_info : Bytes
blind_box_hpke_info = codes "avault:blind-box:v1"

abbrev pub blind_box_aad_domain : Bytes
blind_box_aad_domain = codes "avault:blind-box:aad:v1"

pub record BlindBox : Type 0 where
  pub scheme : Bytes
  pub enc : Bytes
  pub ct : Bytes

pub record BlindBoxContext : Type 0 where
  pub purpose : Bytes
  pub name : Bytes
  pub grant_id : Option Bytes
  pub sign_scheme : Option Bytes
  pub digest : Option Bytes
  pub approval_nonce : Option Bytes
  pub approval_expires_at_unix : Option ℕ
  pub operation_hash : Option Bytes

unfoldable pub new : Bytes → Bytes → BlindBoxContext
new purpose name = record {
  purpose = purpose;
  name = name;
  grant_id = none;
  sign_scheme = none;
  digest = none;
  approval_nonce = none;
  approval_expires_at_unix = none;
  operation_hash = none;
}

unfoldable pub with_grant_id : BlindBoxContext → Bytes → BlindBoxContext
with_grant_id c grant_id = record c { grant_id = some grant_id }

unfoldable pub with_signing : BlindBoxContext → Bytes → Bytes → BlindBoxContext
with_signing c sign_scheme digest = record c {
  sign_scheme = some sign_scheme;
  digest = some digest;
}

unfoldable pub with_approval : BlindBoxContext → Bytes → ℕ → BlindBoxContext
with_approval c nonce expires_at_unix = record c {
  approval_nonce = some nonce;
  approval_expires_at_unix = some expires_at_unix;
}

unfoldable pub with_operation_hash : BlindBoxContext → Bytes → BlindBoxContext
with_operation_hash c hash = record c { operation_hash = some hash }

unfoldable pub seal : Bytes → BlindBoxContext
unfolding new
seal name = new (codes "seal") name

unfoldable pub agent_deliver : Bytes → Bytes → BlindBoxContext
unfolding new with_grant_id
agent_deliver grant_id name = with_grant_id (new (codes "agent-deliver") name) grant_id

unfoldable pub agent_sign : Bytes → Bytes → Bytes → Bytes → BlindBoxContext
unfolding new with_grant_id with_signing
agent_sign grant_id name sign_scheme digest =
    with_signing (with_grant_id (new (codes "agent-sign") name) grant_id) sign_scheme digest

-- `to_be_bytes` of a number of `width` bytes.
abbrev pub be_bytes : ℕ → ℕ → Bytes
be_bytes zero n = []
be_bytes (suc width) n = (n / 256 ^ width % 256) ∷ be_bytes width n

-- `u32::try_from(len).expect(..)`, then the length and the field.
unfoldable pub push_aad_field : Bytes → Bytes → Result BlindBoxError Bytes
push_aad_field out value =
    if ltb (length value) (2 ^ 32)
    then ok (out ++ (be_bytes 4 (length value) ++ value))
    else err field_too_long

unfoldable pub push_fields : Bytes → List Bytes → Result BlindBoxError Bytes
push_fields out [] = ok out
push_fields out (value ∷ values) = do out' ← push_aad_field out value; push_fields out' values

abbrev pub or_empty : Option Bytes → Bytes
or_empty none = []
or_empty (some text) = text

abbrev pub u64_or_empty : Option ℕ → Bytes
u64_or_empty none = []
u64_or_empty (some n) = be_bytes 8 n

-- The fields that `aad_bytes` pushes, in order; the empty one is reserved.
abbrev pub aad_fields : BlindBoxContext → List Bytes
aad_fields c =
    c.purpose
    ∷ c.name
    ∷ wrap_scheme
    ∷ (wrap_meta_version ∷ [])
    ∷ or_empty c.grant_id
    ∷ []
    ∷ or_empty c.sign_scheme
    ∷ or_empty c.digest
    ∷ or_empty c.approval_nonce
    ∷ u64_or_empty c.approval_expires_at_unix
    ∷ or_empty c.operation_hash
    ∷ []

unfoldable pub aad_bytes : BlindBoxContext → Result BlindBoxError Bytes
aad_bytes c = push_fields blind_box_aad_domain (aad_fields c)

pub record Hpke : Type 0 where
  -- Private key, encapsulated key, info, ciphertext and associated data.
  pub single_shot_open : Bytes → Bytes → Bytes → Bytes → Bytes → Option Bytes
  pub is_encapped_key : Bytes → Bool
  pub sha256 : Bytes → Bytes
  pub base64_decode : Bytes → Option Bytes

pub record HpkeLaws (h : Hpke) : Type 0 where
  -- A ciphertext authenticates under its own associated data alone.
  pub authentic :
      (private_key enc info ct aad other : Bytes) {plaintext : Bytes}
      → h.single_shot_open private_key enc info ct aad ≡ some plaintext
      → aad ≢ other
      → h.single_shot_open private_key enc info ct other ≡ none

module _ (h : Hpke) where
  unfoldable pub operation_hash : List Bytes → Result BlindBoxError Bytes
  operation_hash fields = do bytes ← push_fields [] fields; ok (h.sha256 bytes)

  -- `open_blind_box_with_private_key`, and `BlindBoxKeypair::open`.
  unfoldable pub open_blind_box : Bytes → BlindBox → BlindBoxContext → Result BlindBoxError Bytes
  open_blind_box private_key blind_box context = do
    bail_if (not (eq_bytes blind_box.scheme blind_box_scheme)) unsupported_scheme
    enc ← or_fail (h.base64_decode blind_box.enc) not_base64
    ct ← or_fail (h.base64_decode blind_box.ct) not_base64
    bail_if (not (h.is_encapped_key enc)) enc_invalid_length
    aad ← aad_bytes context
    or_fail (h.single_shot_open private_key enc blind_box_hpke_info ct aad) open_failed
