-- ===== src/Store/Passphrase.antt =====
-- `PassphraseFileStore` of crates/avault-store/src/lib.rs: the master key wrapped under a passphrase.
-- The crate's ciphers and scrypt are those of the core (Core/Crypto, Core/Scrypt), line for line; the
-- JSON of a wrapped key is a parameter, and the generated key, salt and nonce are arguments.
pub mod Wrap
pub mod Laws
use avault.Prelude.{Bool, false, not, ◌&&◌, Option, none, some}
use avault.Prelude.Bytes.{Bytes}
use avault.Prelude.Result.{Result, ok, err, bail_if, map_err}
use avault.Prelude.Action.{Action, done, attempt, ◌>>=◌, ◌>>◌}
use avault.Core.Crypto.{Crypto}
use avault.Store.{
  not_found, StoreError, io, invalid_json, key_exists, passphrase_json, Disk, IoFaults, exists,
  validate_directory_mode, validate_file_mode, checks, ensure_parent, install, settle,
}
use avault.Store.FileStore.{after_install}
use avault.Store.Passphrase.Wrap.{
  PassphraseMasterBlob, PassphraseError, store, wrap_passphrase_master, unwrap_passphrase_master,
  validate_passphrase,
}

abbrev pub on_store : {A : Type 0} → Action Disk StoreError A → Action Disk PassphraseError A
on_store m d = ((m d).0, map_err store (m d).1)

-- The JSON of a wrapped key.
pub record BlobJson : Type 0 where
  pub to_json : PassphraseMasterBlob → Bytes
  pub from_json : Bytes → Option PassphraseMasterBlob

abbrev pub read_file : IoFaults → Action Disk StoreError Bytes
read_file faults d = elim (d.files passphrase_json) [
  | none ↦ (d, err (io not_found))
  | some entry ↦ elim faults.read [ some kind ↦ (d, err (io kind)) | none ↦ (d, ok entry.bytes) ]
]

module _ (c : Crypto) (json : BlobJson) where
  abbrev pub unwrap_json : Bytes → Bytes → Result PassphraseError Bytes
  unwrap_json passphrase bytes = elim (json.from_json bytes) [
    | none ↦ err (store invalid_json)
    | some blob ↦ unwrap_passphrase_master c blob passphrase
  ]

  unfoldable pub get : IoFaults → Bytes → Action Disk PassphraseError Bytes
  get faults passphrase = do
    done (validate_passphrase passphrase)
    on_store (checks validate_directory_mode)
    on_store (checks (λ d. validate_file_mode d passphrase_json))
    bytes ← on_store (read_file faults)
    done (unwrap_json passphrase bytes)

  unfoldable pub import :
      IoFaults → Bytes → Bytes → Bytes → Bytes → Bool → Action Disk PassphraseError (Unit {0})
  import faults salt nonce key passphrase force = do
    done (validate_passphrase passphrase)
    on_store (ensure_parent faults)
    on_store (checks (λ d. bail_if (exists d passphrase_json && not force) key_exists))
    blob ← done (wrap_passphrase_master c salt nonce key passphrase)
    on_store (install faults force passphrase_json (json.to_json blob))
    on_store (settle faults passphrase_json)

  unfoldable pub create_atomic :
      IoFaults → Bytes → Bytes → Bytes → Bytes → Action Disk PassphraseError (Unit {0})
  create_atomic faults salt nonce key passphrase = do
    done (validate_passphrase passphrase)
    on_store (ensure_parent faults)
    blob ← done (wrap_passphrase_master c salt nonce key passphrase)
    on_store (
        attempt (install faults false passphrase_json (json.to_json blob))
          (after_install faults passphrase_json))

  unfoldable pub get_or_create :
      IoFaults
      → IoFaults
      → IoFaults
      → Bytes
      → Bytes
      → Bytes
      → Bytes
      → Action Disk PassphraseError Bytes
  get_or_create first creating second salt nonce key passphrase =
      attempt (get first passphrase) (elim [
        | ok found ↦ done (ok found)
        | err e ↦ create_atomic creating salt nonce key passphrase >> get second passphrase
      ])
