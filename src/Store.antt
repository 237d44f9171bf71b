-- ===== src/Store.antt =====
-- The master-key stores of crates/avault-store/src/lib.rs: their errors, the files on disk with
-- their modes (on Unix), and the operations on files that the stores share. The files of the stores
-- stand in one directory. An input or output operation fails where `IoFaults` says so.
pub mod FileStore
pub mod Keychain
pub mod Tpm
pub mod Passphrase
use avault.Prelude.{
  ℕ, ◌%◌, ◌≡◌, ◌↔◌, Bool, true, false, not, ◌&&◌, Option, none, some, arith, ◌==◌, if◌then◌else◌,
  is_some,
}
use avault.Prelude.Bytes.{Bytes}
use avault.Prelude.Result.{Result, ok, err, bail_if}
use avault.Prelude.Maps.{Eq, Map, insert}
use avault.Prelude.Action.{Action, done, ◌>>◌}

pub data IoKind : Type 0 where
  not_found already_exists permission_denied other : IoKind

-- The codes of Security.framework that the store distinguishes.
pub data KeychainStatus : Type 0 where
  item_not_found duplicate_item not_available no_default_keychain : KeychainStatus
  interaction_not_allowed auth_failed user_canceled : KeychainStatus
  other_status : ℕ → KeychainStatus

-- An error by its cause. `tpm` is an error of the TPM, with whether it makes the TPM unusable.
pub data StoreError : Type 0 where
  io : IoKind → StoreError
  keychain : KeychainStatus → StoreError
  tpm : Bool → StoreError
  mode_too_open directory_mode_too_open invalid_length key_exists invalid_json : StoreError
  keys_differ keys_differ_concurrently : StoreError
  passphrase_required authorization_busy : StoreError
  cooldown : ℕ → StoreError

pub data Backend : Type 0 where
  auto tpm keychain file file_passphrase : Backend

pub data StorePath : Type 0 where
  machine_key passphrase_json tpm_json : StorePath

abbrev pub eq_path : StorePath → StorePath → Bool
eq_path machine_key machine_key = true
eq_path passphrase_json passphrase_json = true
eq_path tpm_json tpm_json = true
eq_path _ _ = false

pub eq_path_iff : (p q : StorePath) → (eq_path p q ≡ true) ↔ (p ≡ q)
eq_path_iff machine_key machine_key = ground arith
eq_path_iff machine_key passphrase_json = ground arith
eq_path_iff machine_key tpm_json = ground arith
eq_path_iff passphrase_json machine_key = ground arith
eq_path_iff passphrase_json passphrase_json = ground arith
eq_path_iff passphrase_json tpm_json = ground arith
eq_path_iff tpm_json machine_key = ground arith
eq_path_iff tpm_json passphrase_json = ground arith
eq_path_iff tpm_json tpm_json = ground arith

instance abbrev pub path_eq : Eq StorePath
path_eq = record { beq = eq_path; beq_iff = eq_path_iff }

pub record FileEntry : Type 0 where
  pub bytes : Bytes
  pub mode : ℕ

-- The directory by its mode, if it exists, and the files in it.
pub record Disk : Type 0 where
  pub directory : Option ℕ
  pub files : Map StorePath FileEntry

-- Where an operation on files fails, and how.
pub record IoFaults : Type 0 where
  pub create_dir : Option IoKind
  pub read : Option IoKind
  pub write_temp : Option IoKind
  pub persist : Option IoKind
  pub sync : Option IoKind

abbrev pub master_key_bytes : ℕ
master_key_bytes = 32

-- `0o600` and `0o700`.
abbrev pub private_mode : ℕ
private_mode = 384

abbrev pub private_directory_mode : ℕ
private_directory_mode = 448

abbrev pub fault : Option IoKind → Result StoreError (Unit {0})
fault none = ok tt
fault (some kind) = err (io kind)

-- `mode & 0o077 != 0`.
abbrev pub too_open : ℕ → Bool
too_open mode = not (mode % 64 == 0)

unfoldable pub validate_directory_mode : Disk → Result StoreError (Unit {0})
validate_directory_mode d = elim d.directory [
  | none ↦ err (io not_found)
  | some mode ↦ bail_if (too_open mode) directory_mode_too_open
]

unfoldable pub validate_file_mode : Disk → StorePath → Result StoreError (Unit {0})
validate_file_mode d path = elim (d.files path) [
  | none ↦ err (io not_found)
  | some entry ↦ bail_if (too_open entry.mode) mode_too_open
]

-- `path.exists()`.
abbrev pub exists : Disk → StorePath → Bool
exists d path = is_some (d.files path)

abbrev pub checks : (Disk → Result StoreError (Unit {0})) → Action Disk StoreError (Unit {0})
checks test d = (d, test d)

unfoldable pub ensure_secret_parent_directory : IoFaults → Action Disk StoreError (Unit {0})
ensure_secret_parent_directory faults d = elim d.directory [
  | some mode ↦ (d, validate_directory_mode d)
  | none ↦ elim faults.create_dir [
    | some kind ↦ (d, err (io kind))
    | none ↦ (record d { directory = some private_directory_mode }, ok tt)
  ]
]

-- The stores' `ensure_parent`.
unfoldable pub ensure_parent : IoFaults → Action Disk StoreError (Unit {0})
ensure_parent faults = ensure_secret_parent_directory faults >> checks validate_directory_mode

abbrev pub installed : StorePath → Bytes → Disk → Disk
installed path bytes d = record d {
  files = insert path (record { bytes = bytes; mode = private_mode }) d.files;
}

-- `write_synced_temp_secret_file` and `persist`, or `persist_noclobber`.
unfoldable pub install : IoFaults → Bool → StorePath → Bytes → Action Disk StoreError (Unit {0})
install faults force path bytes d = elim faults.write_temp [
  | some kind ↦ (d, err (io kind))
  | none ↦
      if not force && exists d path then (d, err (io already_exists)) else elim faults.persist [
        | some kind ↦ (d, err (io kind))
        | none ↦ (installed path bytes d, ok tt)
      ]
]

-- The checks after an installation.
unfoldable pub settle : IoFaults → StorePath → Action Disk StoreError (Unit {0})
settle faults path = checks (λ d. validate_file_mode d path) >> done (fault faults.sync)
