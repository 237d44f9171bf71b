-- ===== src/BlindBox/Keypair.antt =====
-- The receiver's key pair: `derive_blind_box_keypair_from_master`, `generate_blind_box_keypair` and
-- `BlindBoxKeypair`. HKDF and the key derivation of the KEM are operations of `Kem`; a key is its
-- bytes, and random bytes are an argument.
use avault.Prelude.{ℕ}
use avault.Prelude.Bytes.{Bytes, codes}
use avault.Prelude.Result.{Result}
use avault.BlindBox.{BlindBoxError, BlindBox, BlindBoxContext, Hpke, open_blind_box}

abbrev pub cli_derived_receiver_salt : Bytes
cli_derived_receiver_salt = codes "avault:blind-box:receiver-salt:v1"

abbrev pub cli_derived_receiver_info : Bytes
cli_derived_receiver_info = codes "avault:blind-box:receiver-x25519:v1"

pub record BlindBoxKeypair : Type 0 where
  pub private_key : Bytes
  pub public_key : Bytes

pub record Kem : Type 0 where
  -- Salt, input key, info and length.
  pub hkdf_expand : Bytes → Bytes → Bytes → ℕ → Bytes
  pub derive_keypair : Bytes → BlindBoxKeypair
  pub base64_encode : Bytes → Bytes
  pub hex_encode : Bytes → Bytes

module _ (kem : Kem) where
  unfoldable pub derive_blind_box_keypair : Bytes → BlindBoxKeypair
  derive_blind_box_keypair ikm = kem.derive_keypair ikm

  unfoldable pub derive_blind_box_keypair_from_master : Bytes → BlindBoxKeypair
  derive_blind_box_keypair_from_master master_key =
      derive_blind_box_keypair
        (kem.hkdf_expand cli_derived_receiver_salt master_key cli_derived_receiver_info 32)

  unfoldable pub public_key_b64 : BlindBoxKeypair → Bytes
  public_key_b64 keypair = kem.base64_encode keypair.public_key

  unfoldable pub fingerprint_hex : Hpke → BlindBoxKeypair → Bytes
  fingerprint_hex hpke keypair = kem.hex_encode (hpke.sha256 keypair.public_key)

-- `BlindBoxKeypair::open`.
unfoldable pub open_with_keypair :
    Hpke → BlindBoxKeypair → BlindBox → BlindBoxContext → Result BlindBoxError Bytes
open_with_keypair hpke keypair blind_box context =
    open_blind_box hpke keypair.private_key blind_box context
