-- ===== src/Core/Signing/Taproot.antt =====
-- The key path of Taproot: the output key belongs to the secret that signs.
use avault.Prelude.{◌≡◌, refl, sym, ap, ◌∙◌, inl, inr, true, false, not, some, arith, Bool-cases}
use avault.Prelude.Bytes.{Bytes, codes}
use avault.Prelude.Result.{ok, guard, bail_if, or_fail, bind-eq-ok, ok-injective}
use avault.Core.Signing.{
  invalid_signature, tweak_out_of_range, tweaked_secret_zero, output_at_infinity,
  invalid_output_key, verification_failed, SignatureResult, Curve, schnorr_bip341_keypath,
  sign_schnorr_with_aux, parse_private_scalar, tagged_hash, TaprootKeyMaterial,
  taproot_keypath_material_with_tweak, normalized, taproot_keypath_material,
  sign_schnorr_bip341_keypath_with_aux, sign_digest,
}

-- What the code relies on of the curve.
pub record CurveLaws (k : Curve) : Type 0 where
  pub from_repr-to_bytes : (s : k.Scalar) → k.from_repr (k.to_bytes s) ≡ some s
  pub times-add :
      (a b : k.Scalar)
      → k.times_generator (k.add a b) ≡ k.add_points (k.times_generator a) (k.times_generator b)
  pub neg-neg : (s : k.Scalar) → k.neg (k.neg s) ≡ s
  pub is_zero-neg : (s : k.Scalar) → k.is_zero (k.neg s) ≡ k.is_zero s
  pub y_is_odd-neg :
      (s : k.Scalar)
      → k.is_zero s ≡ false
      → k.y_is_odd (k.times_generator (k.neg s)) ≡ not (k.y_is_odd (k.times_generator s))

module _ (k : Curve) (laws : CurveLaws k) where
  -- The output key is the x coordinate of the public key of the tweaked secret.
  abbrev pub IsKeyOf : Bytes → Bytes → Type 0
  IsKeyOf output_x secret =
      (s : k.Scalar) × (k.from_repr secret ≡ some s)
      × (k.is_zero s ≡ false)
      × (output_x ≡ k.x (k.times_generator s))

  with_tweak-IsKeyOf :
      (secret : k.Scalar) (tweak_bytes : Bytes) (m : TaprootKeyMaterial k)
      → taproot_keypath_material_with_tweak k secret (k.times_generator secret) tweak_bytes ≡ ok m
      → IsKeyOf m.output_x m.tweaked_secret
  unfolding taproot_keypath_material_with_tweak
  with_tweak-IsKeyOf secret tweak_bytes m h =
      let (tweak, _, h₁) = bind-eq-ok (or_fail (k.from_repr tweak_bytes) tweak_out_of_range) _ h in
      let sum = k.add secret tweak in
      let point = k.add_points (k.times_generator secret) (k.times_generator tweak) in
      let (_, z, h₂) = bind-eq-ok (bail_if (k.is_zero sum) tweaked_secret_zero) _ h₁ in
      let (_, _, h₃) = bind-eq-ok (bail_if (k.is_identity point) output_at_infinity) _ h₂ in
      let made = ok-injective h₃ in
      (
        sum,
        ap (λ r. k.from_repr r.tweaked_secret) (sym made) ∙ laws.from_repr-to_bytes sum,
        ground (arith, z),
        ap (λ r. r.output_x) (sym made) ∙ ap k.x (sym (laws.times-add secret tweak)),
      )

  pub taproot_keypath_material-IsKeyOf :
      (private_key : Bytes) (m : TaprootKeyMaterial k)
      → taproot_keypath_material k private_key ≡ ok m
      → IsKeyOf m.output_x m.tweaked_secret
  unfolding taproot_keypath_material
  taproot_keypath_material-IsKeyOf private_key m h =
      let (scalar, _, h₁) = bind-eq-ok (parse_private_scalar k private_key) _ h in
      let secret = normalized k scalar in
      with_tweak-IsKeyOf secret (tagged_hash k (codes "TapTweak") (k.x (k.times_generator secret)))
        m h₁

  normalized-neg : (s : k.Scalar) → k.is_zero s ≡ false → normalized k (k.neg s) ≡ normalized k s
  normalized-neg s z = elim (Bool-cases (k.y_is_odd (k.times_generator s))) [
    | inl e ↦ rw (laws.y_is_odd-neg s z, e) refl
    | inr e ↦ rw (laws.y_is_odd-neg s z, e) (laws.neg-neg s)
  ]

  -- A key and its negation have the same Taproot material, or the same error, if negation of a
  -- scalar is undone by itself, keeps zero, and turns the parity of the y coordinate.
  pub taproot_keypath_material-neg :
      (key negated : Bytes) (s : k.Scalar)
      → k.from_repr key ≡ some s
      → k.from_repr negated ≡ some (k.neg s)
      → taproot_keypath_material k negated ≡ taproot_keypath_material k key
  unfolding taproot_keypath_material parse_private_scalar
  taproot_keypath_material-neg key negated s e f = elim (Bool-cases (k.is_zero s)) [
    | inl z ↦ rw (e, f, laws.is_zero-neg s, z) refl
    | inr z ↦ rw (e, f, laws.is_zero-neg s, z, normalized-neg s z) refl
  ]

  -- A Taproot signature that is returned was made with the tweaked secret of the key and verifies
  -- under the output key, which is the x coordinate of the public key of that tweaked secret, if
  -- multiplication of the generator is additive and scalars are read back from their bytes.
  pub sign_digest-keypath :
      (private_key digest aux_rand : Bytes) (r : SignatureResult)
      → sign_digest k schnorr_bip341_keypath private_key digest aux_rand ≡ ok r
      → (m : TaprootKeyMaterial k) × (taproot_keypath_material k private_key ≡ ok m)
        × IsKeyOf m.output_x m.tweaked_secret
        × (sign_schnorr_with_aux k m.tweaked_secret digest aux_rand ≡ ok r)
        × (k.verify m.output_x digest r.signature ≡ true)
  unfolding sign_digest sign_schnorr_bip341_keypath_with_aux
  sign_digest-keypath private_key digest aux_rand r h =
      let (m, t, h₁) = bind-eq-ok (taproot_keypath_material k private_key) _ h in
      let (r', s, h₂) =
        bind-eq-ok (sign_schnorr_with_aux k m.tweaked_secret digest aux_rand) _ h₁ in
      let (_, _, h₃) = bind-eq-ok (guard (k.verifying_key m.output_x) invalid_output_key) _ h₂ in
      let (_, _, h₄) = bind-eq-ok (guard (k.is_signature r'.signature) invalid_signature) _ h₃ in
      let (_, v, h₅) =
        bind-eq-ok (guard (k.verify m.output_x digest r'.signature) verification_failed) _ h₄ in
      let same = ok-injective h₅ in
      let verified : k.verify m.output_x digest r'.signature ≡ true = ground (arith, v) in
      (m, t, taproot_keypath_material-IsKeyOf private_key m t, rw same at s, rw same at verified)
