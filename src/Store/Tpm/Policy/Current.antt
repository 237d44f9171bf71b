-- ===== src/Store/Tpm/Policy/Current.antt =====
-- The key that the disk stands for, and that each later load returns it.
use avault.Prelude.{
  ◌≡◌, sym, ◌∙◌, ◌⊎◌, inl, inr, false, none, some, arith, Bool-cases, Option-cases,
}
use avault.Prelude.Bytes.{Bytes}
use avault.Prelude.Result.{ok, Result-cases}
use mathlib.Core.Path.{subst}
use avault.Prelude.Action.{attempt}
use avault.Store.{
  machine_key, tpm_json, FileEntry, Disk, IoFaults, exists, ensure_parent, install, private_mode,
}
use avault.Store.FileStore
use avault.Store.FileStore.Laws.{
  Holds, Keeps, ensure_parent-files, install-Stored, settle-same, get_or_create-Holds,
}
use avault.Store.Tpm.{
  TpmBackend, unseal_json, get_with, write_tpm_blob, create_with, created, missing,
  get_or_create_with,
}
use avault.Store.Tpm.Policy.Laws.{Sealed, get_with-same, get_with-Sealed, migrate_file-Holds}
use avault.Store.Tpm.Policy.{
  Faults, migrate_file, or_file, load_or_create_linux_auto_master_key, load_linux_auto_master_key,
}

-- What the code relies on: JSON and the TPM give back what they were given.
pub record TpmLaws (b : TpmBackend) : Type 0 where
  pub unseal-seal :
      (key : Bytes) {blob : b.Blob}
      → b.seal_master_key key ≡ ok blob
      → b.unseal_master_key blob ≡ ok key
  pub from-to_json : (blob : b.Blob) → b.from_json (b.to_json blob) ≡ some blob

module _ (b : TpmBackend) where
  -- The key that the disk stands for: that of the key file, else the sealed one.
  Current : Bytes → Disk → Type 0
  Current key d =
      ((entry : FileEntry) × (d.files machine_key ≡ some entry) × (entry.bytes ≡ key))
      ⊎ ((d.files machine_key ≡ none) × Sealed b key d)

  Current-unique : (key key' : Bytes) (d : Disk) → Current key d → Current key' d → key' ≡ key
  unfolding Current
  Current-unique key key' d (inl (e, f, g)) (inl (e', f', g')) = ground arith
  Current-unique key key' d (inl (e, f, g)) (inr (n, s)) = absurd (ground arith)
  Current-unique key key' d (inr (n, s)) (inl (e, f, g)) = absurd (ground arith)
  Current-unique key key' d (inr (n, s)) (inr (n', s')) =
      ground (arith, s.entry_is, s'.entry_is, s.unseals, s'.unseals)

  Holds-Current :
      (key : Bytes) (d d' : Disk) → Keeps d d' → Holds machine_key key d → Current key d'
  unfolding Current
  Holds-Current key d d' kept h = inl (h.entry, kept machine_key h.entry h.entry_is, h.bytes_are)

  load_linux-Current :
      (faults : Faults) (d : Disk) (key : Bytes)
      → (load_linux_auto_master_key b faults d).1 ≡ ok key
      → Current key d
  unfolding load_linux_auto_master_key Current
  load_linux-Current faults d key h = elim (Option-cases (d.files machine_key)) [
    | inl n ↦ inr (n, get_with-Sealed b (faults 1) d key (ground arith))
    | inr (entry, e) ↦
        Holds-Current key d d (λ p f x. x) ((migrate_file-Holds b faults d key).1 (ground arith))
  ]

  create_with-machine_key :
      (faults : IoFaults) (key : Bytes) (d : Disk)
      → (create_with b faults key false d).0.files machine_key ≡ d.files machine_key
  unfolding create_with write_tpm_blob install
  create_with-machine_key faults key d = elim (Result-cases (b.seal_master_key key)) [
    | inr (x, s) ↦ ground (arith, ensure_parent-files faults d)
    | inl (blob, s) ↦
        let i = install faults false tpm_json (b.to_json blob) (ensure_parent faults d).0 in
        ground (arith, ensure_parent-files faults d, settle-same faults tpm_json i.0)
  ]

  get_or_create_with-machine_key :
      (first creating again : IoFaults) (key : Bytes) (d : Disk)
      → (get_or_create_with b first creating again key d).0.files machine_key ≡ d.files machine_key
  unfolding get_or_create_with missing created
  get_or_create_with-machine_key first creating again key d =
      let g = get_with b first d in
      let c = create_with b creating key false g.0 in
      ground (
        arith,
        get_with-same b first d,
        create_with-machine_key creating key g.0,
        get_with-same b again c.0,
      )

module _ (b : TpmBackend) (laws : TpmLaws b) where
  create_with-Sealed :
      (faults : IoFaults) (key : Bytes) (d : Disk)
      → (create_with b faults key false d).1 ≡ ok tt
      → Sealed b key (create_with b faults key false d).0
  unfolding create_with write_tpm_blob unseal_json
  create_with-Sealed faults key d h = elim (Result-cases (b.seal_master_key key)) [
    | inr (x, s) ↦ absurd (ground arith)
    | inl (blob, s) ↦
        let e = ensure_parent faults d in
        let i = install faults false tpm_json (b.to_json blob) e.0 in
        let stored : i.1 ≡ ok tt = ground arith in
        record {
          entry = record { bytes = b.to_json blob; mode = private_mode };
          entry_is = ground (
            arith,
            settle-same faults tpm_json i.0,
            (install-Stored faults false tpm_json (b.to_json blob) e.0 stored).0,
          );
          unseals = ground (arith, laws.from-to_json blob, laws.unseal-seal key s);
        }
  ]

  get_or_create_with-Sealed :
      (first creating again : IoFaults) (new_key : Bytes) (d : Disk) (key : Bytes)
      → (get_or_create_with b first creating again new_key d).1 ≡ ok key
      → Sealed b key (get_or_create_with b first creating again new_key d).0
  unfolding get_or_create_with missing created
  get_or_create_with-Sealed first creating again new_key d key h =
      let g = get_with b first d in
      let c = create_with b creating new_key false g.0 in
      elim (Result-cases g.1) [
        | inl (found, e) ↦
            subst (Sealed b key) (sym (get_with-same b first d) ∙ ground arith)
              (get_with-Sealed b first d key (ground arith))
        | inr (x, e) ↦ elim (Result-cases c.1) [
          | inl (u, f) ↦
              let same : key ≡ new_key = ground arith in
              subst (Sealed b key) (ground arith)
                (subst (λ j. Sealed b j c.0) (sym same) (create_with-Sealed creating new_key g.0 f))
          | inr (y, f) ↦
              subst (Sealed b key) (sym (get_with-same b again c.0) ∙ ground arith)
                (get_with-Sealed b again c.0 key (ground arith))
        ]
      ]

  Sealed-Current :
      (key : Bytes) (d : Disk) → d.files machine_key ≡ none → Sealed b key d → Current b key d
  unfolding Current
  Sealed-Current key d n s = inr (n, s)

  -- The last branch: neither file exists.
  or_file-Current :
      (faults : Faults) (new_key new_file_key : Bytes) (d : Disk) (key : Bytes)
      → d.files machine_key ≡ none
      → (attempt
          (get_or_create_with b (faults 1) (faults 2) (faults 3) new_key)
          (or_file b faults new_file_key)
          d).1
        ≡ ok key
      → Current b key
          (attempt
            (get_or_create_with b (faults 1) (faults 2) (faults 3) new_key)
            (or_file b faults new_file_key)
            d).0
  unfolding or_file
  or_file-Current faults new_key new_file_key d key n h =
      let t = get_or_create_with b (faults 1) (faults 2) (faults 3) new_key d in
      let f =
        FileStore.get_or_create (faults 4) (faults 5) (faults 6) machine_key new_file_key t.0 in
      elim (Result-cases t.1) [
        | inl (found, e) ↦ subst (Current b key) (ground arith) (
            Sealed-Current key t.0
              (get_or_create_with-machine_key b (faults 1) (faults 2) (faults 3) new_key d ∙ n)
              (get_or_create_with-Sealed (faults 1) (faults 2) (faults 3) new_key d key
                (ground arith)))
        | inr (x, e) ↦ subst (Current b key) (ground arith) (
            Holds-Current b key f.0 f.0 (λ p e h. h)
              (get_or_create-Holds (faults 4) (faults 5) (faults 6) machine_key new_file_key t.0 key
                (ground arith)))
      ]

  -- What a load_or_create returns is what the disk then stands for.
  load_or_create-Current :
      (faults : Faults) (new_key new_file_key : Bytes) (d : Disk) (key : Bytes)
      → (load_or_create_linux_auto_master_key b faults new_key new_file_key d).1 ≡ ok key
      → Current b key (load_or_create_linux_auto_master_key b faults new_key new_file_key d).0
  unfolding load_or_create_linux_auto_master_key
  load_or_create-Current faults new_key new_file_key d key h =
      elim (Bool-cases (exists d machine_key)) [
        | inl x ↦
            let m = migrate_file-Holds b faults d key in
            subst (Current b key) (ground arith)
              (Holds-Current b key d (migrate_file b faults d).0 m.0 (m.1 (ground arith)))
        | inr x ↦ elim (Bool-cases (exists d tpm_json)) [
          | inl t ↦ subst (Current b key) (sym (get_with-same b (faults 1) d) ∙ ground arith) (
              Sealed-Current key d (ground arith)
                (get_with-Sealed b (faults 1) d key (ground arith)))
          | inr t ↦
              subst (Current b key) (ground arith)
                (or_file-Current faults new_key new_file_key d key (ground arith) (ground arith))
        ]
      ]

  -- After a successful Linux load or creation, each successful later load from the same disk
  -- returns the same key, whichever operations on files fail, if the TPM and JSON give back what
  -- they were given.
  pub load_linux_auto_master_key-again :
      (faults faults' : Faults) (new_key new_file_key : Bytes) (d : Disk) {key key' : Bytes}
      → (load_or_create_linux_auto_master_key b faults new_key new_file_key d).1 ≡ ok key
      → (load_linux_auto_master_key b faults'
          (load_or_create_linux_auto_master_key b faults new_key new_file_key d).0).1
        ≡ ok key'
      → key' ≡ key
  load_linux_auto_master_key-again faults faults' new_key new_file_key d {key} {key'} h h' =
      let after = (load_or_create_linux_auto_master_key b faults new_key new_file_key d).0 in
      Current-unique b key key' after (load_or_create-Current faults new_key new_file_key d key h)
        (load_linux-Current b faults' after key' h')
