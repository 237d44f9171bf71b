-- ===== src/Store/Tpm.antt =====
-- `TpmStore`, a file that holds the master key sealed by the TPM, and the Linux policy over the TPM
-- and the key file. The TPM and serde_json are the operations of `TpmBackend`; a generated key is an
-- argument. Each operation on files has its own faults, by number.
pub mod Policy
use avault.Prelude.{Bool, true, false, not, ◌&&◌, Option, none, some, if◌then◌else◌}
use avault.Prelude.Bytes.{Bytes}
use avault.Prelude.Result.{Result, ok, err, bail_if}
use avault.Prelude.Action.{Action, done, attempt, ◌>>=◌, ◌>>◌}
use avault.Store.{
  not_found, already_exists, permission_denied, StoreError, io, tpm, key_exists, invalid_json,
  tpm_json, Disk, IoFaults, validate_directory_mode, validate_file_mode, exists, checks,
  ensure_parent, install, settle,
}

-- The trait `TpmBackend`, and the JSON of a sealed key.
pub record TpmBackend : Type 1 where
  pub Blob : Type 0
  pub seal_master_key : Bytes → Result StoreError Blob
  pub unseal_master_key : Blob → Result StoreError Bytes
  pub to_json : Blob → Bytes
  pub from_json : Bytes → Option Blob

abbrev pub is_not_found_error : StoreError → Bool
is_not_found_error (io not_found) = true
is_not_found_error _ = false

abbrev pub is_already_exists_error : StoreError → Bool
is_already_exists_error (io already_exists) = true
is_already_exists_error _ = false

-- The text of a file that is missing counts, which is "No such file or directory".
abbrev pub is_tpm_unavailable : StoreError → Bool
is_tpm_unavailable (io permission_denied) = true
is_tpm_unavailable (io not_found) = true
is_tpm_unavailable (tpm unusable) = unusable
is_tpm_unavailable _ = false

module _ (b : TpmBackend) where
  abbrev read_blob : IoFaults → Action Disk StoreError Bytes
  read_blob faults d = elim (d.files tpm_json) [
    | none ↦ (d, err (io not_found))
    | some entry ↦ elim faults.read [ some kind ↦ (d, err (io kind)) | none ↦ (d, ok entry.bytes) ]
  ]

  pub unseal_json : Bytes → Result StoreError Bytes
  unseal_json bytes = elim (b.from_json bytes) [
    | none ↦ err invalid_json
    | some blob ↦ b.unseal_master_key blob
  ]

  unfoldable pub get_with : IoFaults → Action Disk StoreError Bytes
  unfolding unseal_json
  get_with faults = do
    checks validate_directory_mode
    checks (λ d. validate_file_mode d tpm_json)
    bytes ← read_blob faults
    done (unseal_json bytes)

  unfoldable pub write_tpm_blob : IoFaults → b.Blob → Bool → Action Disk StoreError (Unit {0})
  write_tpm_blob faults blob force =
      install faults force tpm_json (b.to_json blob) >> settle faults tpm_json

  -- `create_noclobber_with`, and `create_force_with`.
  unfoldable pub create_with : IoFaults → Bytes → Bool → Action Disk StoreError (Unit {0})
  create_with faults key force = do
    ensure_parent faults
    blob ← done (b.seal_master_key key)
    write_tpm_blob faults blob force

  unfoldable pub import_with : IoFaults → Bytes → Bool → Action Disk StoreError (Unit {0})
  import_with faults key force = do
    ensure_parent faults
    checks (λ d. bail_if (exists d tpm_json && not force) key_exists)
    create_with faults key force

  created : IoFaults → Bytes → Result StoreError (Unit {0}) → Action Disk StoreError Bytes
  created again key (ok u) d = (d, ok key)
  created again key (err e) d = if is_already_exists_error e then get_with again d else (d, err e)

  missing : IoFaults → IoFaults → Bytes → Result StoreError Bytes → Action Disk StoreError Bytes
  unfolding created
  missing creating again key (ok found) d = (d, ok found)
  missing creating again key (err e) d =
      if is_not_found_error e
      then attempt (create_with creating key false) (created again key) d
      else (d, err e)

  unfoldable pub get_or_create_with :
      IoFaults → IoFaults → IoFaults → Bytes → Action Disk StoreError Bytes
  unfolding missing
  get_or_create_with first creating again key =
      attempt (get_with first) (missing creating again key)
