-- ===== src/Core/Signing.antt =====
-- Signing, from crates/avault-core/src/signing.rs: the schemes, `sign_digest`, and the key-path
-- material of Taproot. The curve crate (k256) and SHA-256 are operations of `Curve`; an affine point
-- is the class of its projective ones. Random bytes are arguments.
pub mod Schemes
pub mod Taproot
use avault.Prelude.{ℕ, Bool, Option, none, some, ◌++◌, if◌then◌else◌}
use avault.Prelude.Bytes.{Bytes, codes, eq_bytes}
use avault.Prelude.Result.{Result, ok, err, ◌>>=◌, ◌>>◌, guard, bail_if, or_fail}

pub data SignatureScheme : Type 0 where
  ecdsa_recoverable ecdsa_der schnorr_bip340 schnorr_bip341_keypath : SignatureScheme

pub data SignError : Type 0 where
  unsupported_scheme invalid_key signing_failed invalid_signature : SignError
  tweak_out_of_range tweaked_secret_zero output_at_infinity invalid_output_key : SignError
  verification_failed : SignError

unfoldable pub as_str : SignatureScheme → Bytes
as_str ecdsa_recoverable = codes "ecdsa-secp256k1-recoverable"
as_str ecdsa_der = codes "ecdsa-secp256k1-der"
as_str schnorr_bip340 = codes "schnorr-secp256k1-bip340"
as_str schnorr_bip341_keypath = codes "schnorr-secp256k1-bip341-keypath"

unfoldable pub from_str : Bytes → Result SignError SignatureScheme
unfolding as_str
from_str value =
    if eq_bytes value (as_str ecdsa_recoverable)
    then ok ecdsa_recoverable
    else if eq_bytes value (as_str ecdsa_der)
    then ok ecdsa_der
    else if eq_bytes value (as_str schnorr_bip340)
    then ok schnorr_bip340
    else if eq_bytes value (as_str schnorr_bip341_keypath)
    then ok schnorr_bip341_keypath
    else err unsupported_scheme

pub record SignatureResult : Type 0 where
  pub signature : Bytes
  pub recovery_id : Option ℕ

pub record Curve : Type 1 where
  pub Scalar : Type 0
  pub Point : Type 0
  -- `Scalar::from_repr`, `is_zero`, negation, addition, `to_bytes`
  pub from_repr : Bytes → Option Scalar
  pub is_zero : Scalar → Bool
  pub neg : Scalar → Scalar
  pub add : Scalar → Scalar → Scalar
  pub to_bytes : Scalar → Bytes
  -- `ProjectivePoint::GENERATOR * s`, addition of points, `y_is_odd`, `x`, `is_identity`
  pub times_generator : Scalar → Point
  pub add_points : Point → Point → Point
  pub y_is_odd : Point → Bool
  pub x : Point → Bytes
  pub is_identity : Point → Bool
  -- `ecdsa::SigningKey::from_slice`, and what it signs
  pub ecdsa_key : Bytes → Bool
  pub ecdsa_sign_recoverable : Bytes → Bytes → Option (Bytes × ℕ)
  pub ecdsa_sign_der : Bytes → Bytes → Option Bytes
  -- `schnorr::SigningKey::from_bytes`, and what it signs with auxiliary bytes
  pub schnorr_key : Bytes → Bool
  pub schnorr_sign : Bytes → Bytes → Bytes → Option Bytes
  -- `schnorr::VerifyingKey::from_bytes`, `Signature::try_from`, `verify_prehash`
  pub verifying_key : Bytes → Bool
  pub is_signature : Bytes → Bool
  pub verify : Bytes → Bytes → Bytes → Bool
  pub sha256 : Bytes → Bytes

module _ (k : Curve) where
  unfoldable pub sign_ecdsa_recoverable : Bytes → Bytes → Result SignError SignatureResult
  sign_ecdsa_recoverable private_key digest = do
    guard (k.ecdsa_key private_key) invalid_key
    (signature, recovery_id) ← or_fail (k.ecdsa_sign_recoverable private_key digest) signing_failed
    ok (record { signature = signature; recovery_id = some recovery_id })

  unfoldable pub sign_ecdsa_der : Bytes → Bytes → Result SignError SignatureResult
  sign_ecdsa_der private_key digest = do
    guard (k.ecdsa_key private_key) invalid_key
    signature ← or_fail (k.ecdsa_sign_der private_key digest) signing_failed
    ok (record { signature = signature; recovery_id = none })

  unfoldable pub sign_schnorr_with_aux : Bytes → Bytes → Bytes → Result SignError SignatureResult
  sign_schnorr_with_aux private_key digest aux_rand = do
    guard (k.schnorr_key private_key) invalid_key
    signature ← or_fail (k.schnorr_sign private_key digest aux_rand) signing_failed
    ok (record { signature = signature; recovery_id = none })

  unfoldable pub parse_private_scalar : Bytes → Result SignError k.Scalar
  parse_private_scalar private_key = do
    scalar ← or_fail (k.from_repr private_key) invalid_key
    bail_if (k.is_zero scalar) invalid_key
    ok scalar

  unfoldable pub tagged_hash : Bytes → Bytes → Bytes
  tagged_hash tag message = k.sha256 (k.sha256 tag ++ (k.sha256 tag ++ message))

  pub record TaprootKeyMaterial : Type 0 where
    pub tweaked_secret : Bytes
    pub output_x : Bytes

  unfoldable pub taproot_keypath_material_with_tweak :
      k.Scalar → k.Point → Bytes → Result SignError TaprootKeyMaterial
  taproot_keypath_material_with_tweak normalized_secret internal_point tweak_bytes = do
    tweak ← or_fail (k.from_repr tweak_bytes) tweak_out_of_range
    let tweaked_secret = k.add normalized_secret tweak
    bail_if (k.is_zero tweaked_secret) tweaked_secret_zero
    let output_point = k.add_points internal_point (k.times_generator tweak)
    bail_if (k.is_identity output_point) output_at_infinity
    ok (record { tweaked_secret = k.to_bytes tweaked_secret; output_x = k.x output_point })

  -- The scalar of the point with even y.
  abbrev pub normalized : k.Scalar → k.Scalar
  normalized scalar = if k.y_is_odd (k.times_generator scalar) then k.neg scalar else scalar

  unfoldable pub taproot_keypath_material : Bytes → Result SignError TaprootKeyMaterial
  taproot_keypath_material private_key = do
    private_scalar ← parse_private_scalar private_key
    let normalized_secret = normalized private_scalar
    let normalized_point = k.times_generator normalized_secret
    let tweak_hash = tagged_hash (codes "TapTweak") (k.x normalized_point)
    taproot_keypath_material_with_tweak normalized_secret normalized_point tweak_hash

  unfoldable pub sign_schnorr_bip341_keypath_with_aux :
      Bytes → Bytes → Bytes → Result SignError SignatureResult
  sign_schnorr_bip341_keypath_with_aux private_key digest aux_rand = do
    material ← taproot_keypath_material private_key
    result ← sign_schnorr_with_aux material.tweaked_secret digest aux_rand
    guard (k.verifying_key material.output_x) invalid_output_key
    guard (k.is_signature result.signature) invalid_signature
    guard (k.verify material.output_x digest result.signature) verification_failed
    ok result

  -- `aux_rand` is what `OsRng` fills in.
  unfoldable pub sign_digest :
      SignatureScheme → Bytes → Bytes → Bytes → Result SignError SignatureResult
  sign_digest ecdsa_recoverable private_key digest aux_rand =
      sign_ecdsa_recoverable private_key digest
  sign_digest ecdsa_der private_key digest aux_rand = sign_ecdsa_der private_key digest
  sign_digest schnorr_bip340 private_key digest aux_rand =
      sign_schnorr_with_aux private_key digest aux_rand
  sign_digest schnorr_bip341_keypath private_key digest aux_rand =
      sign_schnorr_bip341_keypath_with_aux private_key digest aux_rand
