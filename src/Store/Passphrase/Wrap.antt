-- ===== src/Store/Passphrase/Wrap.antt =====
-- `PassphraseMasterBlob`, `wrap_passphrase_master` and `unwrap_passphrase_master` of
-- crates/avault-store/src/lib.rs, and that a wrapped key unwraps.
use avault.Prelude.{ℕ, ◌^◌, ◌≡◌, not, ◌||◌, [], ◌∷◌, arith, ◌==◌, length}
use avault.Prelude.Bytes.{Bytes, codes, eq_bytes}
use avault.Prelude.Result.{
  Result, ok, err, ◌>>=◌, ◌>>◌, bail_if, or_fail, map_err, bind-eq-ok, or_fail-eq-ok, ok-injective,
  map_err-eq-ok,
}
use avault.Core.Crypto.{
  Crypto, CryptoLaws, CoreError, nonce_bytes, b64, unb64, decode_nonce, decode_nonce-b64,
  encrypt_with_key,
}
use avault.Core.Scrypt.{validate_scrypt_params, derive_kek_scrypt, validate_scrypt_params-export}
use avault.Store.{StoreError, master_key_bytes}

pub data PassphraseError : Type 0 where
  store : StoreError → PassphraseError
  core : CoreError → PassphraseError
  empty_passphrase unrecognized unlock_failed invalid_length : PassphraseError

abbrev pub passphrase_store_scheme : Bytes
passphrase_store_scheme = codes "machine-key-passphrase-v1"

abbrev pub scrypt_n : ℕ
scrypt_n = 2 ^ 15

abbrev pub scrypt_r : ℕ
scrypt_r = 8

abbrev pub scrypt_p : ℕ
scrypt_p = 1

pub record PassphraseMasterBlob : Type 0 where
  pub scheme : Bytes
  pub kdf : Bytes
  pub n : ℕ
  pub r : ℕ
  pub p : ℕ
  pub salt : Bytes
  pub nonce : Bytes
  pub wrapped_master : Bytes

unfoldable pub validate_passphrase : Bytes → Result PassphraseError (Unit {0})
validate_passphrase [] = err empty_passphrase
validate_passphrase (x ∷ xs) = ok tt

module _ (c : Crypto) where
  abbrev pub wrapped_blob : Bytes → Bytes → Bytes → PassphraseMasterBlob
  wrapped_blob salt nonce wrapped_master = record {
    scheme = passphrase_store_scheme;
    kdf = codes "scrypt";
    n = scrypt_n;
    r = scrypt_r;
    p = scrypt_p;
    salt = b64 c salt;
    nonce = b64 c nonce;
    wrapped_master = b64 c wrapped_master;
  }

  unfoldable pub wrap_passphrase_master :
      Bytes → Bytes → Bytes → Bytes → Result PassphraseError PassphraseMasterBlob
  wrap_passphrase_master salt nonce master_key passphrase = do
    validate_passphrase passphrase
    kek ← map_err core (derive_kek_scrypt c passphrase salt scrypt_n scrypt_r scrypt_p)
    wrapped_master ← map_err core (encrypt_with_key c kek nonce master_key [])
    ok (wrapped_blob salt nonce wrapped_master)

  unfoldable pub unwrap_passphrase_master :
      PassphraseMasterBlob → Bytes → Result PassphraseError Bytes
  unwrap_passphrase_master blob passphrase = do
    validate_passphrase passphrase
    bail_if
        (not (eq_bytes blob.scheme passphrase_store_scheme)
          || not (eq_bytes blob.kdf (codes "scrypt")))
        unrecognized
    map_err core (validate_scrypt_params blob.n blob.r blob.p)
    salt ← map_err core (unb64 c blob.salt)
    nonce ← map_err core (decode_nonce c blob.nonce)
    wrapped_master ← map_err core (unb64 c blob.wrapped_master)
    kek ← map_err core (derive_kek_scrypt c passphrase salt blob.n blob.r blob.p)
    key ← or_fail (c.decrypt kek nonce wrapped_master []) unlock_failed
    bail_if (not (length key == master_key_bytes)) invalid_length
    ok key

-- A wrapped master key unwraps under its passphrase.
pub unwrap-wrap :
    (c : Crypto) (laws : CryptoLaws c) (salt nonce master_key passphrase : Bytes)
    {blob : PassphraseMasterBlob}
    → length nonce ≡ nonce_bytes
    → length master_key ≡ master_key_bytes
    → wrap_passphrase_master c salt nonce master_key passphrase ≡ ok blob
    → unwrap_passphrase_master c blob passphrase ≡ ok master_key
unfolding wrap_passphrase_master unwrap_passphrase_master eq_bytes
unwrap-wrap c laws salt nonce master_key passphrase nonce_len key_len h =
    let (u, given, h1) = bind-eq-ok (validate_passphrase passphrase) _ h in
    let (kek, k, h2) =
      bind-eq-ok (map_err core (derive_kek_scrypt c passphrase salt scrypt_n scrypt_r scrypt_p)) _
        h1 in
    let (wrapped, w, last) =
      bind-eq-ok (map_err core (encrypt_with_key c kek nonce master_key [])) _ h2 in
    rw
      (
        ← ok-injective last,
        given,
        validate_scrypt_params-export,
        laws.base64-decode_encode salt,
        decode_nonce-b64 c laws nonce nonce_len,
        laws.base64-decode_encode wrapped,
        map_err-eq-ok core _ k,
        laws.decrypt-encrypt kek nonce master_key [] (or_fail-eq-ok _ _ (map_err-eq-ok core _ w)),
      )
      (ground arith)
