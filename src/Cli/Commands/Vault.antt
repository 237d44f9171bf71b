-- ===== src/Cli/Commands/Vault.antt =====
-- `seal_cmd`, `pubkey_cmd` and `sign_cmd`. What is printed as JSON is the result.
use avault.Prelude.{Option, List, [], ◌∷◌, if◌then◌else◌}
use avault.Prelude.Bytes.{Bytes}
use avault.Prelude.Result.{Result, ok, err, map_err, bail_if, or_fail, guard}
use avault.Prelude.Action.{done, ◌>>=◌, ◌>>◌}
use avault.Prelude.Result
use avault.Core.Crypto.{Sealed}
use avault.Core.Envelope.{open_sealed}
use avault.Core.Envelope
use avault.Core.Signing.{SignatureScheme, SignatureResult, Curve, from_str, sign_digest}
use avault.BlindBox.{BlindBox}
use avault.BlindBox
use avault.BlindBox.Keypair.{
  Kem, derive_blind_box_keypair_from_master, public_key_b64, fingerprint_hex, open_with_keypair,
}
use avault.Agent.GrantRequest.{decode_hex_32, zeroizing_vec_to_key32}
use avault.Agent.Dispatch.{System}
use avault.Cli.{StoreSelection}
use avault.Cli.Options.{parse_seal_options}
use avault.Cli.Commands.{
  StoreUnlock, MasterStore, CommandError, core_failed, box_failed, sign_failed, request_refused,
  options_refused, not_json, takes_no_options, Command, on_store, read_stdin_zeroizing_from,
  read_json_input, read_store_unlock, load_existing_master_from_unlock,
  load_or_create_master_from_unlock,
}
use avault.Cli.Commands.OneShot.{reject_one_shot_protected_fields}

pub record SignInput : Type 0 where
  pub name : Bytes
  pub key_envelope : Sealed
  pub digest : Bytes
  pub scheme : Bytes
  pub dek_blindbox : Option BlindBox
  pub approval : Option Bytes

pub record PubkeyOutput : Type 0 where
  pub public_key : Bytes
  pub fingerprint : Bytes

-- What `seal` draws.
pub record SealRandom : Type 0 where
  pub dek : Bytes
  pub value_nonce : Bytes
  pub dek_nonce : Bytes

module _ {S E : Type 0} (y : System) (kem : Kem) (m : MasterStore S E) where
  abbrev pub sealed_with : SealRandom → Bytes → Bytes → Bytes → Command S E Sealed
  sealed_with random master name value = done (
      map_err core_failed
        (Envelope.seal y.crypto random.dek random.value_nonce random.dek_nonce master name value))

  -- The plaintext comes in a blind box for the key of an existing store.
  abbrev pub seal_blind_box :
      (Bytes → Option BlindBox) → SealRandom → Bytes → StoreUnlock → Command S E Sealed
  seal_blind_box parse random name unlock = do
    input ← read_json_input
    blind_box ← done (or_fail (parse input) not_json)
    master ← on_store (load_existing_master_from_unlock m unlock)
    let keypair = derive_blind_box_keypair_from_master kem master
    value ←
        done (map_err box_failed (open_with_keypair y.hpke keypair blind_box (BlindBox.seal name)))
    sealed_with random master name value

  abbrev pub seal_plaintext : SealRandom → Bytes → StoreUnlock → Command S E Sealed
  seal_plaintext random name unlock = do
    value ← read_stdin_zeroizing_from
    master ← on_store (load_or_create_master_from_unlock m unlock)
    sealed_with random master name value

  unfoldable pub seal_cmd :
      (Bytes → Option BlindBox) → SealRandom → List Bytes → StoreSelection → Command S E Sealed
  seal_cmd parse random args config = do
    options ← done (map_err options_refused (parse_seal_options args))
    unlock ← read_store_unlock config
    (if options.blind_box
        then seal_blind_box parse random options.name unlock
        else seal_plaintext random options.name unlock)

  unfoldable pub pubkey_cmd : List Bytes → StoreSelection → Command S E PubkeyOutput
  pubkey_cmd (arg ∷ args) config = done (err takes_no_options)
  pubkey_cmd [] config = do
    unlock ← read_store_unlock config
    master ← on_store (load_or_create_master_from_unlock m unlock)
    let keypair = derive_blind_box_keypair_from_master kem master
    done (
        ok (record {
          public_key = public_key_b64 kem keypair;
          fingerprint = fingerprint_hex kem y.hpke keypair;
        }))

module _ {S E : Type 0} (y : System) (k : Curve) (m : MasterStore S E) where
  -- `sign_digest_with_key`.
  abbrev pub signature_output :
      SignatureScheme → Bytes → Bytes → Result (CommandError E) SignatureResult
  signature_output scheme digest key_plaintext =
      Result.◌>>=◌ (map_err request_refused (zeroizing_vec_to_key32 key_plaintext)) (λ private_key.
        Result.◌>>=◌ (map_err sign_failed (sign_digest k scheme private_key digest y.aux_rand))
          (λ result. ok (record result { signature = y.hex.encode result.signature })))

  unfoldable pub sign_cmd :
      (Bytes → Option SignInput) → List Bytes → StoreSelection → Command S E SignatureResult
  sign_cmd parse (arg ∷ args) config = done (err takes_no_options)
  sign_cmd parse [] config = do
    unlock ← read_store_unlock config
    input ← read_json_input
    request ← done (or_fail (parse input) not_json)
    digest ← done (map_err request_refused (decode_hex_32 y.hpke y.hex request.digest))
    scheme ← done (map_err sign_failed (from_str request.scheme))
    done (reject_one_shot_protected_fields request.dek_blindbox request.approval)
    master ← on_store (load_existing_master_from_unlock m unlock)
    key_plaintext ←
        done (map_err core_failed (open_sealed y.crypto master request.name request.key_envelope))
    done (signature_output scheme digest key_plaintext)
