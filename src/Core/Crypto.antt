-- ===== src/Core/Crypto.antt =====
-- What avault-core takes from other crates, and the data that it passes to them.
use avault.Prelude.{ℕ, ◌≡◌, ◌≢◌, not, Option, none, some, arith, ◌==◌, length}
use avault.Prelude.Bytes.{Bytes, codes}
use avault.Prelude.Result.{Result, ok, ◌>>=◌, ◌>>◌, bail_if, or_fail}

abbrev pub wrap_scheme : Bytes
wrap_scheme = codes "machine-aesgcm-v1"

abbrev pub wrap_meta_version : ℕ
wrap_meta_version = 1

abbrev pub key_bytes : ℕ
key_bytes = 32

abbrev pub nonce_bytes : ℕ
nonce_bytes = 12

pub record Sealed : Type 0 where
  pub ciphertext : Bytes
  pub nonce : Bytes
  pub wrap_meta : Bytes

pub data ProtectedRecordMeta : Type 0 where
  static : ProtectedRecordMeta
  keypair : Bytes → ProtectedRecordMeta

pub record WrapMeta : Type 0 where
  pub v : ℕ
  pub scheme : Bytes
  pub wrapped_dek : Bytes
  pub dek_nonce : Bytes
  pub record_meta : Option ProtectedRecordMeta

pub data CoreError : Type 0 where
  encryption_failed authentication_failed : CoreError
  wrap_meta_not_json unsupported_wrap_scheme unsupported_wrap_meta_version : CoreError
  not_base64 invalid_length : CoreError
  dek_unwrap_failed dek_unwrap_invalid_length value_decrypt_failed : CoreError
  empty_passphrase unrecognized_export_blob import_failed imported_key_invalid_length : CoreError
  scrypt_n_out_of_bounds scrypt_r_out_of_bounds scrypt_p_out_of_bounds : CoreError
  invalid_scrypt_parameters : CoreError

-- AES-256-GCM takes key, nonce, message (or ciphertext) and associated data; `scrypt` takes
-- passphrase, salt, log N, r and p, and fails on parameters that it refuses.
pub record Crypto : Type 0 where
  pub encrypt : Bytes → Bytes → Bytes → Bytes → Option Bytes
  pub decrypt : Bytes → Bytes → Bytes → Bytes → Option Bytes
  pub scrypt : Bytes → Bytes → ℕ → ℕ → ℕ → Option Bytes
  pub base64_encode : Bytes → Bytes
  pub base64_decode : Bytes → Option Bytes
  pub print_wrap_meta : WrapMeta → Bytes
  pub parse_wrap_meta : Bytes → Option WrapMeta
  pub json_string : Bytes → Bytes

pub record CryptoLaws (c : Crypto) : Type 0 where
  -- Decryption undoes encryption under the same key, nonce and associated data.
  pub decrypt-encrypt :
      (key nonce msg aad : Bytes) {ct : Bytes}
      → c.encrypt key nonce msg aad ≡ some ct
      → c.decrypt key nonce ct aad ≡ some msg
  -- A ciphertext authenticates under its own associated data alone.
  pub authentic :
      (key nonce msg aad other : Bytes) {ct : Bytes}
      → c.encrypt key nonce msg aad ≡ some ct
      → aad ≢ other
      → c.decrypt key nonce ct other ≡ none
  pub base64-decode_encode : (raw : Bytes) → c.base64_decode (c.base64_encode raw) ≡ some raw
  pub parse-print : (meta : WrapMeta) → c.parse_wrap_meta (c.print_wrap_meta meta) ≡ some meta
  pub json_string-injective : (a b : Bytes) → c.json_string a ≡ c.json_string b → a ≡ b

module _ (c : Crypto) where
  abbrev pub encrypt_with_key : Bytes → Bytes → Bytes → Bytes → Result CoreError Bytes
  encrypt_with_key key nonce plaintext aad =
      or_fail (c.encrypt key nonce plaintext aad) encryption_failed

  abbrev pub decrypt_with_key : Bytes → Bytes → Bytes → Bytes → Result CoreError Bytes
  decrypt_with_key key nonce ciphertext aad =
      or_fail (c.decrypt key nonce ciphertext aad) authentication_failed

  abbrev pub b64 : Bytes → Bytes
  b64 raw = c.base64_encode raw

  abbrev pub unb64 : Bytes → Result CoreError Bytes
  unb64 text = or_fail (c.base64_decode text) not_base64

  unfoldable pub decode_nonce : Bytes → Result CoreError Bytes
  decode_nonce text = do
    raw ← unb64 text
    bail_if (not (length raw == nonce_bytes)) invalid_length
    ok raw

  pub decode_nonce-b64 :
      CryptoLaws c
      → (nonce : Bytes) → length nonce ≡ nonce_bytes
      → decode_nonce (b64 nonce) ≡ ok nonce
  unfolding decode_nonce
  decode_nonce-b64 laws nonce h = rw (laws.base64-decode_encode nonce) (ground arith)
