-- ===== src/Core/Envelope.antt =====
-- Standard-tier envelopes: `seal`, `open`, `open_value_with_dek`, `aad` and `slice_to_key`.
use avault.Prelude.{not, Option, none, some, [], ◌∷◌, ◌++◌, ◌==◌, if◌then◌else◌, length}
use avault.Prelude.Bytes.{Bytes, eq_bytes}
use avault.Prelude.Result.{Result, ok, err, ◌>>=◌, ◌>>◌, bail_if, or_fail}
use avault.Core.Crypto.{
  wrap_scheme, wrap_meta_version, key_bytes, Sealed, WrapMeta, CoreError, wrap_meta_not_json,
  unsupported_wrap_scheme, unsupported_wrap_meta_version, invalid_length, dek_unwrap_failed,
  dek_unwrap_invalid_length, value_decrypt_failed, Crypto, encrypt_with_key, b64, unb64,
  decode_nonce,
}

unfoldable pub aad : Bytes → Bytes
aad name = name ++ (wrap_scheme ++ wrap_meta_version ∷ [])

unfoldable pub slice_to_key : Bytes → Result CoreError Bytes
slice_to_key key = if length key == key_bytes then ok key else err invalid_length

module _ (c : Crypto) where
  -- The two struct literals at the end of `seal`.
  abbrev pub standard_meta : Bytes → Bytes → WrapMeta
  standard_meta dek_nonce wrapped_dek = record {
    v = wrap_meta_version;
    scheme = wrap_scheme;
    wrapped_dek = b64 c wrapped_dek;
    dek_nonce = b64 c dek_nonce;
    record_meta = none;
  }

  abbrev pub envelope : Bytes → Bytes → Bytes → Bytes → Sealed
  envelope value_nonce dek_nonce ciphertext wrapped_dek = record {
    ciphertext = b64 c ciphertext;
    nonce = b64 c value_nonce;
    wrap_meta = c.print_wrap_meta (standard_meta dek_nonce wrapped_dek);
  }

  unfoldable pub seal : Bytes → Bytes → Bytes → Bytes → Bytes → Bytes → Result CoreError Sealed
  seal dek value_nonce dek_nonce master_key name value = do
    ciphertext ← encrypt_with_key c dek value_nonce value (aad name)
    wrapped_dek ← encrypt_with_key c master_key dek_nonce dek []
    ok (envelope value_nonce dek_nonce ciphertext wrapped_dek)

  -- The error of a second failure is the first one's, with the context added.
  abbrev pub or_retry : Option Bytes → Option Bytes → Result CoreError Bytes
  or_retry (some plaintext) retry = ok plaintext
  or_retry none retry = or_fail retry value_decrypt_failed

  unfoldable pub open_value_with_dek : Bytes → Bytes → Sealed → Result CoreError Bytes
  open_value_with_dek dek name sealed = do
    value_nonce ← decode_nonce c sealed.nonce
    ciphertext ← unb64 c sealed.ciphertext
    or_retry (c.decrypt dek value_nonce ciphertext (aad name))
        (c.decrypt dek value_nonce ciphertext [])

  abbrev pub read_wrap_meta : Sealed → Result CoreError WrapMeta
  read_wrap_meta sealed = do
    meta ← or_fail (c.parse_wrap_meta sealed.wrap_meta) wrap_meta_not_json
    bail_if (not (eq_bytes meta.scheme wrap_scheme)) unsupported_wrap_scheme
    bail_if (not (meta.v == wrap_meta_version)) unsupported_wrap_meta_version
    ok meta

  unfoldable pub unwrap_dek : Bytes → WrapMeta → Result CoreError Bytes
  unwrap_dek master_key meta = do
    dek_nonce ← decode_nonce c meta.dek_nonce
    wrapped_dek ← unb64 c meta.wrapped_dek
    dek ← or_fail (c.decrypt master_key dek_nonce wrapped_dek []) dek_unwrap_failed
    bail_if (not (length dek == key_bytes)) dek_unwrap_invalid_length
    ok dek

  unfoldable pub open_sealed : Bytes → Bytes → Sealed → Result CoreError Bytes
  open_sealed master_key name sealed = do
    meta ← read_wrap_meta sealed
    dek ← unwrap_dek master_key meta
    key ← slice_to_key dek
    open_value_with_dek key name sealed
