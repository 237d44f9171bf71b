-- ===== src/Core/Open.antt =====
-- Opening what was sealed, and nothing else.
use avault.Prelude.{
  ◌≡◌, refl, ap, ◌∙◌, ◌≢◌, ◌⊎◌, inl, inr, Bool, true, false, not, Option, none, some, [], ◌∷◌, ◌++◌,
  arith, ◌==◌, ==_iff, length, length-append,
}
use avault.Prelude.Bytes.{Bytes, eq_bytes, eq_bytes_iff}
use avault.Prelude.Result.{
  Result, ok, err, ◌>>◌, bail_if, or_fail, bind-eq-ok, or_fail-eq-ok, ok-injective,
}
use mathlib.Core.Path.{subst}
use avault.Core.Crypto.{
  wrap_scheme, wrap_meta_version, key_bytes, nonce_bytes, Sealed, WrapMeta, CoreError,
  wrap_meta_not_json, value_decrypt_failed, Crypto, CryptoLaws, encrypt_with_key, unb64,
  decode_nonce, decode_nonce-b64,
}
use avault.Core.Envelope.{
  standard_meta, envelope, aad, slice_to_key, seal, or_retry, open_value_with_dek, read_wrap_meta,
  unwrap_dek, open_sealed,
}

-- A name is determined by what stands before a fixed end.
pub append-injective : (a b end : Bytes) → a ++ end ≡ b ++ end → a ≡ b
append-injective [] [] end p = refl
append-injective [] (y ∷ b) end p = absurd (omega (arith, ap length p, length-append b end))
append-injective (x ∷ a) [] end p = absurd (omega (arith, ap length p, length-append a end))
append-injective (x ∷ a) (y ∷ b) end p = ground (arith, append-injective a b end)

pub aad-injective : (name other : Bytes) → aad name ≡ aad other → name ≡ other
unfolding aad
aad-injective name other p = append-injective name other _ p

pub aad-ne-nil : (name : Bytes) → aad name ≢ []
unfolding aad
aad-ne-nil [] p = cc
aad-ne-nil (x ∷ name) p = cc

module _ (c : Crypto) (laws : CryptoLaws c) (dek value_nonce dek_nonce master_key : Bytes)
    (dek_len : length dek ≡ key_bytes) (value_nonce_len : length value_nonce ≡ nonce_bytes)
    (dek_nonce_len : length dek_nonce ≡ nonce_bytes) where
  read_wrap_meta-envelope :
      (ciphertext wrapped_dek : Bytes)
      → read_wrap_meta c (envelope c value_nonce dek_nonce ciphertext wrapped_dek)
        ≡ ok (standard_meta c dek_nonce wrapped_dek)
  unfolding eq_bytes
  read_wrap_meta-envelope ciphertext wrapped_dek = rw laws.parse-print

  unwrap_dek-standard_meta :
      (wrapped_dek : Bytes)
      → c.encrypt master_key dek_nonce dek [] ≡ some wrapped_dek
      → unwrap_dek c master_key (standard_meta c dek_nonce wrapped_dek) ≡ ok dek
  unfolding unwrap_dek
  unwrap_dek-standard_meta wrapped_dek h =
      rw
        (
          decode_nonce-b64 c laws dek_nonce dek_nonce_len,
          laws.base64-decode_encode wrapped_dek,
          laws.decrypt-encrypt master_key dek_nonce dek [] h,
        )
        (ground arith)

  slice_to_key-dek : slice_to_key dek ≡ ok dek
  unfolding slice_to_key
  slice_to_key-dek = ground arith

  open_value-envelope :
      (name ciphertext wrapped_dek : Bytes)
      → open_value_with_dek c dek name (envelope c value_nonce dek_nonce ciphertext wrapped_dek)
        ≡ or_retry c
            (c.decrypt dek value_nonce ciphertext (aad name))
            (c.decrypt dek value_nonce ciphertext [])
  unfolding open_value_with_dek
  open_value-envelope name ciphertext wrapped_dek =
      rw (decode_nonce-b64 c laws value_nonce value_nonce_len, laws.base64-decode_encode ciphertext)

  -- Opening an envelope of this shape is two decryptions of its ciphertext.
  open_sealed-envelope :
      (name ciphertext wrapped_dek : Bytes)
      → c.encrypt master_key dek_nonce dek [] ≡ some wrapped_dek
      → open_sealed c master_key name (envelope c value_nonce dek_nonce ciphertext wrapped_dek)
        ≡ or_retry c
            (c.decrypt dek value_nonce ciphertext (aad name))
            (c.decrypt dek value_nonce ciphertext [])
  unfolding open_sealed
  open_sealed-envelope name ciphertext wrapped_dek h =
      rw
        (
          read_wrap_meta-envelope ciphertext wrapped_dek,
          unwrap_dek-standard_meta wrapped_dek h,
          slice_to_key-dek,
        )
        (open_value-envelope name ciphertext wrapped_dek)

  seal-eq-ok :
      (name value : Bytes) {sealed : Sealed}
      → seal c dek value_nonce dek_nonce master_key name value ≡ ok sealed
      → (ciphertext : Bytes) × (wrapped_dek : Bytes) × (c.encrypt dek value_nonce value (aad name)
          ≡ some ciphertext)
        × (c.encrypt master_key dek_nonce dek [] ≡ some wrapped_dek)
        × (envelope c value_nonce dek_nonce ciphertext wrapped_dek ≡ sealed)
  unfolding seal
  seal-eq-ok name value h =
      let (ciphertext, e, rest) =
        bind-eq-ok (encrypt_with_key c dek value_nonce value (aad name)) _ h in
      let (wrapped_dek, w, last) =
        bind-eq-ok (encrypt_with_key c master_key dek_nonce dek []) _ rest in
      (ciphertext, wrapped_dek, or_fail-eq-ok _ _ e, or_fail-eq-ok _ _ w, ok-injective last)

  -- A sealed value opens under the same master key and name and comes back unchanged, if keys and
  -- nonces have their lengths.
  pub open_sealed-seal :
      (name value : Bytes) {sealed : Sealed}
      → seal c dek value_nonce dek_nonce master_key name value ≡ ok sealed
      → open_sealed c master_key name sealed ≡ ok value
  open_sealed-seal name value h =
      let (ciphertext, wrapped_dek, e, w, shape) = seal-eq-ok name value h in
      rw (
        ← shape,
        open_sealed-envelope name ciphertext wrapped_dek w,
        laws.decrypt-encrypt dek value_nonce value (aad name) e,
      )

  -- An envelope sealed under one name fails to open under any other name, with the error of the
  -- value decryption, if keys and nonces have their lengths and the cipher authenticates
  -- associated data.
  pub open_sealed-other_name :
      (name other value : Bytes) {sealed : Sealed}
      → name ≢ other
      → seal c dek value_nonce dek_nonce master_key name value ≡ ok sealed
      → open_sealed c master_key other sealed ≡ err value_decrypt_failed
  open_sealed-other_name name other value ne h =
      let (ciphertext, wrapped_dek, e, w, shape) = seal-eq-ok name value h in
      rw (
        ← shape,
        open_sealed-envelope other ciphertext wrapped_dek w,
        laws.authentic dek value_nonce value (aad name) (aad other) e
            (λ p. ne (aad-injective name other p)),
        laws.authentic dek value_nonce value (aad name) [] e (aad-ne-nil name),
      )

-- What an envelope that opens must hold: a data key that the master key unwraps, under which the
-- value authenticates for this name, or, if it does not, with no associated data as before P1.
pub record Authentic (c : Crypto) (master_key name : Bytes) (sealed : Sealed) (value : Bytes)
    : Type 0 where
  pub meta : WrapMeta
  pub dek : Bytes
  pub value_nonce : Bytes
  pub ciphertext : Bytes
  pub meta_read : c.parse_wrap_meta sealed.wrap_meta ≡ some meta
  pub scheme_is : meta.scheme ≡ wrap_scheme
  pub version_is : meta.v ≡ wrap_meta_version
  pub dek_unwraps : unwrap_dek c master_key meta ≡ ok dek
  pub dek_len : length dek ≡ key_bytes
  pub nonce_read : decode_nonce c sealed.nonce ≡ ok value_nonce
  pub ciphertext_read : c.base64_decode sealed.ciphertext ≡ some ciphertext
  pub authenticates :
      (c.decrypt dek value_nonce ciphertext (aad name) ≡ some value)
      ⊎ ((c.decrypt dek value_nonce ciphertext (aad name) ≡ none)
          × (c.decrypt dek value_nonce ciphertext [] ≡ some value))

or_retry-eq-ok :
    (c : Crypto) (a b : Option Bytes) {value : Bytes}
    → or_retry c a b ≡ ok value
    → (a ≡ some value) ⊎ ((a ≡ none) × (b ≡ some value))
or_retry-eq-ok c none none h = cc
or_retry-eq-ok c none (some y) h = inr (refl, ap some (ok-injective h))
or_retry-eq-ok c (some x) b h = inl (ap some (ok-injective h))

bail_if-eq-ok :
    (b : Bool) (e : CoreError) {A : Type 0} (r : Result CoreError A) {a : A}
    → (bail_if (not b) e >> r) ≡ ok a
    → (b ≡ true) × (r ≡ ok a)
bail_if-eq-ok true e r h = (refl, h)
bail_if-eq-ok false e r h = cc

slice_to_key-eq-ok :
    (key : Bytes) {a : Bytes} → slice_to_key key ≡ ok a → (a ≡ key) × (length key ≡ key_bytes)
unfolding slice_to_key
slice_to_key-eq-ok key h = ground arith

-- An envelope that opens has the supported scheme and version, a 32-byte data key that the master
-- key unwraps, and a value that authenticates for the name, or without associated data if it does
-- not.
pub open_sealed-Authentic :
    (c : Crypto) (master_key name : Bytes) (sealed : Sealed) {value : Bytes}
    → open_sealed c master_key name sealed ≡ ok value
    → Authentic c master_key name sealed value
unfolding open_sealed open_value_with_dek
open_sealed-Authentic c master_key name sealed {value} h =
    let (meta, m, h1) = bind-eq-ok (read_wrap_meta c sealed) _ h in
    let (meta', p, m1) =
      bind-eq-ok (or_fail (c.parse_wrap_meta sealed.wrap_meta) wrap_meta_not_json) _ m in
    let (s, m2) = bail_if-eq-ok (eq_bytes meta'.scheme wrap_scheme) _ _ m1 in
    let (v, m3) = bail_if-eq-ok (meta'.v == wrap_meta_version) _ _ m2 in
    let (dek, u, h2) = bind-eq-ok (unwrap_dek c master_key meta) _ h1 in
    let (key, k, h3) = bind-eq-ok (slice_to_key dek) _ h2 in
    let (same, len) = slice_to_key-eq-ok dek k in
    let (nonce, n, h4) = bind-eq-ok (decode_nonce c sealed.nonce) _ h3 in
    let (ct, t, h5) = bind-eq-ok (unb64 c sealed.ciphertext) _ h4 in
    record {
      meta = meta;
      dek = dek;
      value_nonce = nonce;
      ciphertext = ct;
      meta_read = or_fail-eq-ok _ _ p ∙ ap some (ok-injective m3);
      scheme_is = rw (← ok-injective m3) ((eq_bytes_iff _ _).0 s);
      version_is = rw (← ok-injective m3) ((==_iff _ _).0 v);
      dek_unwraps = u;
      dek_len = len;
      nonce_read = n;
      ciphertext_read = or_fail-eq-ok _ _ t;
      authenticates = or_retry-eq-ok c _ _ (
          subst
            (λ k. or_retry c (c.decrypt k nonce ct (aad name)) (c.decrypt k nonce ct []) ≡ ok value)
            same h5);
    }
