-- ===== src/Cli/Commands/Stores.antt =====
-- The choice of a backend in crates/avault-store/src/lib.rs, which fills `MasterStore`: the key file
-- and the passphrase store on one directory, and the stores of the platform, which `hardware` gives.
use avault.Prelude.{◌≡◌, refl, Bool, none, length}
use avault.Prelude.Bytes.{Bytes}
use avault.Prelude.Result.{ok, err, map_err-eq-ok}
use avault.Prelude.Action.{Action, done, ◌>>=◌}
use avault.Core.Crypto.{Crypto, CryptoLaws, nonce_bytes}
use avault.Store.{
  Backend, file, file_passphrase, passphrase_required, machine_key, Disk, IoFaults,
  master_key_bytes,
}
use avault.Store
use avault.Store.FileStore
use avault.Store.FileStore.Laws.{get-import}
use avault.Store.Passphrase
use avault.Store.Passphrase.{BlobJson, on_store}
use avault.Store.Passphrase.Laws.{JsonLaws, get-import_passphrase}
use avault.Store.Passphrase.Wrap.{PassphraseError, store}
use avault.Cli.Commands.{
  StoreUnlock, standard_store, passphrase_store, MasterStore, load_existing_master_from_unlock,
  import_master_with_unlock,
}

-- What the store draws and where its files fail.
pub record Session : Type 0 where
  pub first : IoFaults
  pub creating : IoFaults
  pub second : IoFaults
  pub salt : Bytes
  pub nonce : Bytes
  pub generated : Bytes

abbrev Opened : Type 0
Opened = Action Disk PassphraseError Bytes

module _ (c : Crypto) (json : BlobJson) (hardware : MasterStore Disk PassphraseError)
    (t : Session) where
  abbrev pub load_backend : Backend → Action Disk PassphraseError Bytes
  load_backend file = on_store (FileStore.get t.first machine_key)
  load_backend file_passphrase = done (err (store passphrase_required))
  load_backend backend = hardware.load_master_key backend

  abbrev pub load_or_create_backend : Backend → Action Disk PassphraseError Bytes
  load_or_create_backend file =
      on_store (FileStore.get_or_create t.first t.creating t.second machine_key t.generated)
  load_or_create_backend file_passphrase = done (err (store passphrase_required))
  load_or_create_backend backend = hardware.load_or_create_master_key backend

  abbrev pub import_backend : Backend → Bytes → Bool → Action Disk PassphraseError (Unit {0})
  import_backend file key force = on_store (FileStore.import t.creating machine_key key force)
  import_backend file_passphrase key force = done (err (store passphrase_required))
  import_backend backend key force = hardware.import_master_key backend key force

  abbrev pub authorize_backend : Backend → Action Disk PassphraseError (Unit {0})
  authorize_backend Store.auto = hardware.authorize_master_key Store.auto
  authorize_backend Store.keychain = hardware.authorize_master_key Store.keychain
  authorize_backend backend = load_backend backend >>= λ key. done (ok tt)

  abbrev pub stores : MasterStore Disk PassphraseError
  stores = record {
    load_master_key = load_backend;
    load_or_create_master_key = load_or_create_backend;
    import_master_key = import_backend;
    authorize_master_key = authorize_backend;
    load_passphrase_master_key = Passphrase.get c json t.first;
    load_or_create_passphrase_master_key =
        Passphrase.get_or_create c json t.first t.creating t.second t.salt t.nonce t.generated;
    import_passphrase_master_key = λ key passphrase force.
        Passphrase.import c json t.creating t.salt t.nonce key passphrase force;
  }

-- The key file, or the passphrase store.
abbrev pub KeptOnDisk : StoreUnlock → Type 0
KeptOnDisk (standard_store file) = Unit
KeptOnDisk (standard_store _) = ⊥
KeptOnDisk (passphrase_store passphrase) = Unit

-- A key that a command has imported with success into the key file or the passphrase store is what
-- every command that loads an existing key from that store gets, whatever was there and however
-- operations failed before, if reading does not fail, key and nonce have their lengths, and
-- ciphers, base64 and JSON give back what they were given.
pub load-import :
    (c : Crypto) (laws : CryptoLaws c) (json : BlobJson) (json_laws : JsonLaws json)
    (hardware : MasterStore Disk PassphraseError) (t later : Session) (unlock : StoreUnlock)
    (key : Bytes) (force : Bool) (d : Disk)
    → KeptOnDisk unlock
    → length t.nonce ≡ nonce_bytes
    → length key ≡ master_key_bytes
    → later.first.read ≡ none
    → (import_master_with_unlock (stores c json hardware t) unlock key force d).1 ≡ ok tt
    → (load_existing_master_from_unlock
        (stores c json hardware later)
        unlock
        (import_master_with_unlock (stores c json hardware t) unlock key force d).0).1
      ≡ ok key
load-import c laws json json_laws hardware t later (standard_store file) key force d k n l r h =
    let kept =
      get-import t.creating later.first machine_key key force d l r
        (map_err-eq-ok store (FileStore.import t.creating machine_key key force d).1 h) in
    rw kept refl
load-import c laws json json_laws hardware t later (passphrase_store passphrase) key force d k n l r
      h =
    get-import_passphrase c laws json json_laws t.creating later.first t.salt t.nonce key passphrase
      force d n l r h
load-import c laws json json_laws hardware t later (standard_store Store.auto) key force d k n l r
      h =
    absurd k
load-import c laws json json_laws hardware t later (standard_store Store.tpm) key force d k n l r
      h =
    absurd k
load-import c laws json json_laws hardware t later (standard_store Store.keychain) key force d k n l
      r h =
    absurd k
load-import c laws json json_laws hardware t later (standard_store file_passphrase) key force d k n
      l r h =
    absurd k
