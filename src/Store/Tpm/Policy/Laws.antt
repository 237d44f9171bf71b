-- ===== src/Store/Tpm/Policy/Laws.antt =====
-- What the Linux policy promises: it returns the key that the disk holds, and overwrites nothing.
use avault.Prelude.{◌≡◌, refl, sym, ap, ◌∙◌, inl, inr, true, false, some, [], arith, Option-cases}
use avault.Prelude.Bytes.{Bytes, eq_bytes_iff}
use avault.Prelude.Result.{Result, ok, err, Result-cases}
use avault.Store.{
  StoreError, StorePath, machine_key, tpm_json, FileEntry, Disk, IoFaults, exists,
  validate_directory_mode, validate_file_mode, ensure_parent, install,
}
use avault.Store.FileStore
use avault.Store.FileStore.Laws.{
  Holds, get-Holds, get-same, Keeps, ensure_parent-files, install-Keeps, settle-same,
  get_or_create-Keeps,
}
use avault.Store.Tpm.{
  TpmBackend, unseal_json, get_with, write_tpm_blob, create_with, created, missing,
  get_or_create_with,
}
use avault.Store.Tpm.Policy.{
  Faults, same_key, migrate_created, migrate_read, migrate_file_key_to_tpm, migrate_file, or_file,
  load_or_create_linux_auto_master_key, load_linux_auto_master_key,
}

module _ (b : TpmBackend) where
  -- The file of the TPM store unseals to the key.
  pub record Sealed (key : Bytes) (d : Disk) : Type 0 where
    pub entry : FileEntry
    pub entry_is : d.files tpm_json ≡ some entry
    pub unseals : unseal_json b entry.bytes ≡ ok key

  pub get_with-same : (faults : IoFaults) (d : Disk) → (get_with b faults d).0 ≡ d
  unfolding get_with validate_directory_mode validate_file_mode
  get_with-same faults d = ground arith

  pub get_with-Sealed :
      (faults : IoFaults) (d : Disk) (key : Bytes) → (get_with b faults d).1 ≡ ok key → Sealed key d
  unfolding get_with validate_directory_mode validate_file_mode
  get_with-Sealed faults d key h = elim (Option-cases (d.files tpm_json)) [
    | inl n ↦ absurd (ground arith)
    | inr (entry, f) ↦ record { entry = entry; entry_is = f; unseals = ground arith }
  ]

  pub create_with-Keeps :
      (faults : IoFaults) (key : Bytes) (d : Disk) → Keeps d (create_with b faults key false d).0
  unfolding create_with write_tpm_blob
  create_with-Keeps faults key d p e h =
      let en = ensure_parent faults d in
      elim (Result-cases (b.seal_master_key key)) [
        | inr (x, s) ↦ ground (arith, ensure_parent-files faults d)
        | inl (blob, s) ↦
            let i = install faults false tpm_json (b.to_json blob) en.0 in
            ground (
              arith,
              ensure_parent-files faults d,
              settle-same faults tpm_json i.0,
              install-Keeps faults tpm_json (b.to_json blob) en.0 p e,
            )
      ]

  migrate_created-key :
      (faults : Faults) (file_key : Bytes) (r : Result StoreError (Unit {0})) (d : Disk)
      (key : Bytes)
      → ((migrate_created b faults file_key r d).0 ≡ d)
        × ((migrate_created b faults file_key r d).1 ≡ ok key → key ≡ file_key)
  unfolding migrate_created same_key
  migrate_created-key faults file_key (ok u) d key = (refl, λ h. ground arith)
  migrate_created-key faults file_key (err e) d key =
      (ground (arith, get_with-same (faults 3) d), λ h. ground (arith, eq_bytes_iff key file_key))

  migrate-key :
      (faults : Faults) (file_key : Bytes) (d : Disk) (key : Bytes)
      → Keeps d (migrate_file_key_to_tpm b faults file_key d).0
        × ((migrate_file_key_to_tpm b faults file_key d).1 ≡ ok key → key ≡ file_key)
  unfolding migrate_file_key_to_tpm migrate_read same_key
  migrate-key faults file_key d key =
      let g = get_with b (faults 1) d in
      let c = create_with b (faults 2) file_key false g.0 in
      (
        λ p e h. ground (
          arith,
          get_with-same (faults 1) d,
          create_with-Keeps (faults 2) file_key g.0 p e,
          (migrate_created-key faults file_key c.1 c.0 key).0,
        ),
        λ h.
            ground (
              arith,
              eq_bytes_iff key file_key,
              (migrate_created-key faults file_key c.1 c.0 key).1,
            ),
      )

  pub migrate_file-Holds :
      (faults : Faults) (d : Disk) (key : Bytes)
      → Keeps d (migrate_file b faults d).0
        × ((migrate_file b faults d).1 ≡ ok key → Holds machine_key key d)
  unfolding migrate_file
  migrate_file-Holds faults d key =
      let g = FileStore.get (faults 0) machine_key d in
      elim (Result-cases g.1) [
        | inr (x, e) ↦
            (λ p f h. ground (arith, get-same (faults 0) machine_key d), λ h. absurd (ground arith))
        | inl (file_key, e) ↦
            let m = migrate-key faults file_key g.0 key in
            (
              λ p f h. ground (arith, get-same (faults 0) machine_key d, m.0 p f),
              λ h.
                  (let same : key ≡ file_key = ground (arith, m.1) in
                    get-Holds (faults 0) machine_key d (e ∙ ap ok (sym same))),
            )
      ]

  get_or_create_with-Keeps :
      (first creating again : IoFaults) (key : Bytes) (d : Disk)
      → Keeps d (get_or_create_with b first creating again key d).0
  unfolding get_or_create_with missing created
  get_or_create_with-Keeps first creating again key d p e h =
      let g = get_with b first d in
      let c = create_with b creating key false g.0 in
      ground (
        arith,
        get_with-same first d,
        create_with-Keeps creating key g.0 p e,
        get_with-same again c.0,
      )

  -- The Linux load or creation leaves every file that exists as it was, whichever operations fail.
  pub load_or_create_linux_auto_master_key-kept :
      (faults : Faults) (new_key new_file_key : Bytes) (d : Disk) (p : StorePath) (e : FileEntry)
      → d.files p ≡ some e
      → (load_or_create_linux_auto_master_key b faults new_key new_file_key d).0.files p ≡ some e
  unfolding load_or_create_linux_auto_master_key or_file
  load_or_create_linux_auto_master_key-kept faults new_key new_file_key d p e h =
      let t = get_or_create_with b (faults 1) (faults 2) (faults 3) new_key d in
      ground (
        arith,
        (migrate_file-Holds faults d []).0 p e,
        get_with-same (faults 1) d,
        get_or_create_with-Keeps (faults 1) (faults 2) (faults 3) new_key d p e,
        get_or_create-Keeps (faults 4) (faults 5) (faults 6) machine_key new_file_key t.0 p e,
      )

  -- With a sealed key and no key file, the Linux load or creation is the load that creates
  -- nothing, and the disk stays as it was.
  pub load_or_create_linux_auto_master_key-no_key_file :
      (faults : Faults) (new_key new_file_key : Bytes) (d : Disk)
      → exists d machine_key ≡ false
      → exists d tpm_json ≡ true
      → load_or_create_linux_auto_master_key b faults new_key new_file_key d
          ≡ load_linux_auto_master_key b faults d
        × ((load_linux_auto_master_key b faults d).0 ≡ d)
  unfolding load_or_create_linux_auto_master_key load_linux_auto_master_key
  load_or_create_linux_auto_master_key-no_key_file faults new_key new_file_key d n t =
      (rw (n, t), ground (arith, get_with-same (faults 1) d))
