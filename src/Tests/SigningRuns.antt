-- ===== src/Tests/SigningRuns.antt =====
-- Signing on a curve of three points, which meets the laws.
use avault.Prelude.{
  ◌≡◌, refl, Bool, true, false, not, Option, none, some, [], ◌∷◌, ◌++◌, ◌==◌, if◌then◌else◌, drop,
}
use avault.Prelude.Bytes.{Bytes, eq_bytes}
use avault.Prelude.Result.{ok}
use avault.Core.Signing.{
  schnorr_bip341_keypath, SignatureResult, Curve, sign_schnorr_with_aux, parse_private_scalar,
  tagged_hash, TaprootKeyMaterial, taproot_keypath_material_with_tweak, taproot_keypath_material,
  sign_schnorr_bip341_keypath_with_aux, sign_digest,
}
use avault.Core.Signing.Taproot.{
  CurveLaws, IsKeyOf, sign_digest-keypath, taproot_keypath_material-neg,
}

data Three : Type 0 where
  nought one two : Three

abbrev negated : Three → Three
negated nought = nought
negated one = two
negated two = one

abbrev sum : Three → Three → Three
sum nought b = b
sum one nought = one
sum one one = two
sum one two = nought
sum two nought = two
sum two one = nought
sum two two = one

abbrev is_nought : Three → Bool
is_nought nought = true
is_nought _ = false

abbrev is_two : Three → Bool
is_two two = true
is_two _ = false

abbrev bytes_of : Three → Bytes
bytes_of nought = 0 ∷ []
bytes_of one = 1 ∷ []
bytes_of two = 2 ∷ []

abbrev three_of : Bytes → Option Three
three_of (b ∷ []) =
    if b == 0 then some nought else if b == 1 then some one else if b == 2 then some two else none
three_of _ = none

abbrev x_of : Three → Bytes
x_of nought = 0 ∷ []
x_of _ = 1 ∷ []

abbrev toy_curve : Curve
toy_curve = record {
  Scalar = Three;
  Point = Three;
  from_repr = three_of;
  is_zero = is_nought;
  neg = negated;
  add = sum;
  to_bytes = bytes_of;
  times_generator = λ s. s;
  add_points = sum;
  y_is_odd = is_two;
  x = x_of;
  is_identity = is_nought;
  ecdsa_key = λ key. true;
  ecdsa_sign_recoverable = λ key digest. some (digest, 0);
  ecdsa_sign_der = λ key digest. some digest;
  schnorr_key = λ key. true;
  schnorr_sign = λ key digest aux. some (key ++ digest);
  verifying_key = λ key. true;
  is_signature = λ signature. true;
  verify = λ key digest signature. eq_bytes (drop 1 signature) digest;
  sha256 = λ text. 1 ∷ [];
}

back : (s : Three) → three_of (bytes_of s) ≡ some s
back nought = refl
back one = refl
back two = refl

neg_neg : (s : Three) → negated (negated s) ≡ s
neg_neg nought = refl
neg_neg one = refl
neg_neg two = refl

zero_neg : (s : Three) → is_nought (negated s) ≡ is_nought s
zero_neg nought = refl
zero_neg one = refl
zero_neg two = refl

odd_neg : (s : Three) → is_nought s ≡ false → is_two (negated s) ≡ not (is_two s)
odd_neg nought h = cc
odd_neg one h = refl
odd_neg two h = refl

abbrev toy_laws : CurveLaws toy_curve
toy_laws = record {
  from_repr-to_bytes = back;
  times-add = λ a b. refl;
  neg-neg = neg_neg;
  is_zero-neg = zero_neg;
  y_is_odd-neg = odd_neg;
}

abbrev key : Bytes
key = 2 ∷ []

abbrev digest : Bytes
digest = 7 ∷ 8 ∷ []

abbrev signed : SignatureResult
signed = record { signature = 2 ∷ 7 ∷ 8 ∷ []; recovery_id = none }

signs : sign_digest toy_curve schnorr_bip341_keypath key digest [] ≡ ok signed
unfolding sign_digest sign_schnorr_bip341_keypath_with_aux taproot_keypath_material
    parse_private_scalar taproot_keypath_material_with_tweak tagged_hash sign_schnorr_with_aux
    eq_bytes
signs = refl

sign_digest-keypath_example :
    (m : TaprootKeyMaterial toy_curve) × (taproot_keypath_material toy_curve key ≡ ok m)
    × IsKeyOf toy_curve toy_laws m.output_x m.tweaked_secret
    × (sign_schnorr_with_aux toy_curve m.tweaked_secret digest [] ≡ ok signed)
    × (toy_curve.verify m.output_x digest signed.signature ≡ true)
sign_digest-keypath_example = sign_digest-keypath toy_curve toy_laws key digest [] signed signs

taproot_keypath_material-neg_example :
    taproot_keypath_material toy_curve (1 ∷ []) ≡ taproot_keypath_material toy_curve key
taproot_keypath_material-neg_example =
    taproot_keypath_material-neg toy_curve toy_laws key (1 ∷ []) two refl refl
