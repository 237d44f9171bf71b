-- ===== src/Store/Tpm/Policy.antt =====
-- The Linux policy: the functions with `linux` in their names, and `migrate_file_key_to_tpm`.
pub mod Laws
pub mod Current
use avault.Prelude.{ℕ, Bool, true, false, not, ◌&&◌, if◌then◌else◌}
use avault.Prelude.Bytes.{Bytes, eq_bytes}
use avault.Prelude.Result.{Result, ok, err}
use avault.Prelude.Action.{Action, done, attempt, ◌>>=◌}
use avault.Store.{
  StoreError, key_exists, keys_differ, keys_differ_concurrently, machine_key, tpm_json, Disk,
  IoFaults, exists,
}
use avault.Store.FileStore
use avault.Store.Tpm
use avault.Store.Tpm.{TpmBackend, is_not_found_error, is_already_exists_error, is_tpm_unavailable}

-- The faults of each operation on files, in the order in which the code reaches them.
abbrev pub Faults : Type 0
Faults = ℕ → IoFaults

module _ (b : TpmBackend) where
  same_key : Bytes → StoreError → Bytes → Result StoreError Bytes
  same_key file_key differ found = if eq_bytes found file_key then ok found else err differ

  migrate_created : Faults → Bytes → Result StoreError (Unit {0}) → Action Disk StoreError Bytes
  unfolding same_key
  migrate_created faults file_key (ok u) d = (d, ok file_key)
  migrate_created faults file_key (err e) d =
      if is_already_exists_error e
      then (Tpm.get_with b (faults 3) >>= λ found.
            done (same_key file_key keys_differ_concurrently found))
          d
      else if is_tpm_unavailable e
      then (d, ok file_key)
      else (d, err e)

  migrate_read : Faults → Bytes → Result StoreError Bytes → Action Disk StoreError Bytes
  unfolding same_key migrate_created
  migrate_read faults file_key (ok found) d = (d, same_key file_key keys_differ found)
  migrate_read faults file_key (err e) d =
      if is_not_found_error e
      then attempt (Tpm.create_with b (faults 2) file_key false) (migrate_created faults file_key) d
      else if is_tpm_unavailable e
      then (d, ok file_key)
      else (d, err e)

  unfoldable pub migrate_file_key_to_tpm : Faults → Bytes → Action Disk StoreError Bytes
  unfolding migrate_read
  migrate_file_key_to_tpm faults file_key =
      attempt (Tpm.get_with b (faults 1)) (migrate_read faults file_key)

  pub migrate_file : Faults → Action Disk StoreError Bytes
  migrate_file faults = FileStore.get (faults 0) machine_key >>= migrate_file_key_to_tpm faults

  -- `key` is the key that the TPM store generates, `file_key` that of the file store.
  or_file : Faults → Bytes → Result StoreError Bytes → Action Disk StoreError Bytes
  or_file faults file_key (ok key) d = (d, ok key)
  or_file faults file_key (err e) d =
      if is_tpm_unavailable e
      then FileStore.get_or_create (faults 4) (faults 5) (faults 6) machine_key file_key d
      else (d, err e)

  unfoldable pub load_or_create_linux_auto_master_key :
      Faults → Bytes → Bytes → Action Disk StoreError Bytes
  unfolding migrate_file or_file
  load_or_create_linux_auto_master_key faults key file_key d =
      if exists d machine_key
      then migrate_file faults d
      else if exists d tpm_json
      then Tpm.get_with b (faults 1) d
      else attempt (Tpm.get_or_create_with b (faults 1) (faults 2) (faults 3) key)
          (or_file faults file_key) d

  unfoldable pub load_linux_auto_master_key : Faults → Action Disk StoreError Bytes
  unfolding migrate_file
  load_linux_auto_master_key faults d =
      if exists d machine_key then migrate_file faults d else Tpm.get_with b (faults 1) d

  -- `stored` is the result of the import into the TPM.
  import_file :
      Faults → Bytes → Bool → Result StoreError (Unit {0}) → Action Disk StoreError (Unit {0})
  import_file faults key force (ok u) d = (d, ok tt)
  import_file faults key force (err e) d =
      if is_tpm_unavailable e && not (exists d tpm_json)
      then FileStore.import (faults 1) machine_key key force d
      else (d, err e)

  import_both : Faults → Bytes → Result StoreError (Unit {0}) → Action Disk StoreError (Unit {0})
  import_both faults key (ok u) d = FileStore.import (faults 1) machine_key key true d
  import_both faults key (err e) d =
      if is_tpm_unavailable e && not (exists d tpm_json)
      then FileStore.import (faults 1) machine_key key true d
      else (d, err e)

  unfoldable pub import_linux_auto_master_key :
      Faults → Bytes → Bool → Action Disk StoreError (Unit {0})
  unfolding import_file import_both
  import_linux_auto_master_key faults key force d =
      if exists d machine_key
      then (if force
          then attempt (Tpm.import_with b (faults 0) key true) (import_both faults key) d
          else (d, err key_exists))
      else attempt (Tpm.import_with b (faults 0) key force) (import_file faults key force) d
