-- ===== src/Core/Export.antt =====
-- Exports of the master key: `export_master_key` and `import_master_key`.
use avault.Prelude.{ℕ, ◌^◌, ◌≡◌, Bool, true, false, not, ◌||◌, some, [], ◌∷◌, arith, ◌==◌, length}
use avault.Prelude.Bytes.{Bytes, codes, eq_bytes}
use avault.Prelude.Result.{
  Result, ok, ◌>>=◌, ◌>>◌, bail_if, or_fail, bind-eq-ok, or_fail-eq-ok, ok-injective,
}
use avault.Core.Crypto.{
  key_bytes, nonce_bytes, CoreError, Crypto, CryptoLaws, encrypt_with_key, b64, unb64, decode_nonce,
  decode_nonce-b64,
}
use avault.Core.Crypto.{
  empty_passphrase, unrecognized_export_blob, import_failed, imported_key_invalid_length,
}
use avault.Core.Scrypt.{validate_scrypt_params, derive_kek_scrypt, validate_scrypt_params-export}

abbrev pub export_scheme : Bytes
export_scheme = codes "machine-key-export-v1"

abbrev pub scrypt_n : ℕ
scrypt_n = 2 ^ 15

abbrev pub scrypt_r : ℕ
scrypt_r = 8

abbrev pub scrypt_p : ℕ
scrypt_p = 1

pub record ExportBlob : Type 0 where
  pub scheme : Bytes
  pub kdf : Bytes
  pub n : ℕ
  pub r : ℕ
  pub p : ℕ
  pub salt : Bytes
  pub nonce : Bytes
  pub ciphertext : Bytes

abbrev is_empty : Bytes → Bool
is_empty [] = true
is_empty (x ∷ xs) = false

module _ (c : Crypto) where
  -- The struct literal at the end of `export_master_key`.
  abbrev pub export_blob : Bytes → Bytes → Bytes → ExportBlob
  export_blob salt nonce ciphertext = record {
    scheme = export_scheme;
    kdf = codes "scrypt";
    n = scrypt_n;
    r = scrypt_r;
    p = scrypt_p;
    salt = b64 c salt;
    nonce = b64 c nonce;
    ciphertext = b64 c ciphertext;
  }

  unfoldable pub export_master_key : Bytes → Bytes → Bytes → Bytes → Result CoreError ExportBlob
  export_master_key salt nonce master_key passphrase = do
    bail_if (is_empty passphrase) empty_passphrase
    kek ← derive_kek_scrypt c passphrase salt scrypt_n scrypt_r scrypt_p
    ciphertext ← encrypt_with_key c kek nonce master_key []
    ok (export_blob salt nonce ciphertext)

  unfoldable pub import_master_key : ExportBlob → Bytes → Result CoreError Bytes
  import_master_key blob passphrase = do
    bail_if (is_empty passphrase) empty_passphrase
    bail_if (not (eq_bytes blob.scheme export_scheme) || not (eq_bytes blob.kdf (codes "scrypt")))
        unrecognized_export_blob
    validate_scrypt_params blob.n blob.r blob.p
    salt ← unb64 c blob.salt
    nonce ← decode_nonce c blob.nonce
    ciphertext ← unb64 c blob.ciphertext
    kek ← derive_kek_scrypt c passphrase salt blob.n blob.r blob.p
    key ← or_fail (c.decrypt kek nonce ciphertext []) import_failed
    bail_if (not (length key == key_bytes)) imported_key_invalid_length
    ok key

module _ (c : Crypto) (laws : CryptoLaws c) (salt nonce master_key passphrase : Bytes)
    (nonce_len : length nonce ≡ nonce_bytes) (key_len : length master_key ≡ key_bytes) where
  export-eq-ok :
      {blob : ExportBlob}
      → export_master_key c salt nonce master_key passphrase ≡ ok blob
      → (kek : Bytes) × (ciphertext : Bytes) × (is_empty passphrase ≡ false)
        × (derive_kek_scrypt c passphrase salt scrypt_n scrypt_r scrypt_p ≡ ok kek)
        × (c.encrypt kek nonce master_key [] ≡ some ciphertext)
        × (export_blob c salt nonce ciphertext ≡ blob)
  unfolding export_master_key
  export-eq-ok h =
      let (u, given, h1) = bind-eq-ok (bail_if (is_empty passphrase) empty_passphrase) _ h in
      let (kek, k, h2) =
        bind-eq-ok (derive_kek_scrypt c passphrase salt scrypt_n scrypt_r scrypt_p) _ h1 in
      let (ciphertext, e, last) = bind-eq-ok (encrypt_with_key c kek nonce master_key []) _ h2 in
      (kek, ciphertext, ground arith, k, or_fail-eq-ok _ _ e, ok-injective last)

  -- An exported master key imports again under its passphrase and comes back unchanged, if key and
  -- nonce have their lengths.
  pub import-export :
      {blob : ExportBlob}
      → export_master_key c salt nonce master_key passphrase ≡ ok blob
      → import_master_key c blob passphrase ≡ ok master_key
  unfolding import_master_key eq_bytes
  import-export h =
      let (kek, ciphertext, given, k, e, shape) = export-eq-ok h in
      rw
        (
          ← shape,
          given,
          validate_scrypt_params-export,
          laws.base64-decode_encode salt,
          decode_nonce-b64 c laws nonce nonce_len,
          laws.base64-decode_encode ciphertext,
          k,
          laws.decrypt-encrypt kek nonce master_key [] e,
        )
        (ground arith)
