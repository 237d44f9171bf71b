-- ===== src/Tests/CoreRuns.antt =====
-- The crypto core over the toy cipher.
use avault.Prelude.{◌≡◌, refl, some, [], ◌∷◌, ◌++◌}
use avault.Prelude.Bytes.{Bytes, codes}
use avault.Prelude.Result.{ok, err}
use avault.Core.Crypto.{wrap_scheme, Sealed, keypair, WrapMeta, value_decrypt_failed}
use avault.Tests.ToyCrypto.{frame, print_meta, toy_crypto, toy_laws}
use avault.Core.Envelope.{aad, seal, open_sealed, envelope}
use avault.Core.Open.{open_sealed-seal, open_sealed-other_name}
use avault.Core.Protected.{protected_record_aad, open_with_dek, open_with_dek-browser_envelope}
use avault.Core.Scrypt.{
  validate_scrypt_params, derive_kek_scrypt, is_power_of_two, power_below, checked_ilog2,
  ilog2_below,
}
use avault.Core.Export.{export_master_key, export_blob}

abbrev nonce : Bytes
nonce = codes "nonce-012345"

abbrev key : Bytes
key = codes "0123456789abcdef0123456789abcdef"

abbrev master : Bytes
master = codes "ABCDEFGHIJKLMNOPABCDEFGHIJKLMNOP"

abbrev name : Bytes
name = codes "API_KEY"

abbrev value : Bytes
value = codes "s3cr3t"

abbrev name_aad : Bytes
name_aad = codes "API_KEYmachine-aesgcm-v1" ++ 1 ∷ []

abbrev sealed : Sealed
sealed = envelope toy_crypto nonce nonce (frame name_aad value) (frame [] key)

seals_value : seal toy_crypto key nonce nonce master name value ≡ ok sealed
unfolding seal aad
seals_value = refl

open_sealed-seal_example : open_sealed toy_crypto master name sealed ≡ ok value
open_sealed-seal_example =
    open_sealed-seal toy_crypto toy_laws key nonce nonce master refl refl refl name value
      seals_value

open_sealed-other_name_example :
    open_sealed toy_crypto master (codes "OTHER") sealed ≡ err value_decrypt_failed
open_sealed-other_name_example =
    open_sealed-other_name toy_crypto toy_laws key nonce nonce master refl refl refl name
      (codes "OTHER") value (λ e. cc) seals_value

abbrev protected_meta : WrapMeta
protected_meta = record {
  v = 1;
  scheme = wrap_scheme;
  wrapped_dek = [];
  dek_nonce = [];
  record_meta = some (keypair (codes "02AB"));
}

open_with_dek-browser_envelope_example :
    (open_with_dek toy_crypto key name (record {
      ciphertext = frame (protected_record_aad toy_crypto name protected_meta) value;
      nonce = nonce;
      wrap_meta = print_meta protected_meta;
    })
      ≡ ok value)
    × (open_with_dek toy_crypto key (codes "OTHER") (record {
      ciphertext = frame (protected_record_aad toy_crypto name protected_meta) value;
      nonce = nonce;
      wrap_meta = print_meta protected_meta;
    })
        ≡ err value_decrypt_failed)
open_with_dek-browser_envelope_example =
    open_with_dek-browser_envelope toy_crypto toy_laws key nonce name value
      (frame (protected_record_aad toy_crypto name protected_meta) value) protected_meta refl refl
      refl refl (codes "OTHER") (λ e. cc)

exports_master :
    export_master_key toy_crypto nonce nonce master (codes "pass")
    ≡ ok (export_blob toy_crypto nonce nonce (frame [] master))
unfolding export_master_key derive_kek_scrypt validate_scrypt_params is_power_of_two power_below
    checked_ilog2 ilog2_below
exports_master = refl
