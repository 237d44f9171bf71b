-- ===== src/Store/Keychain/Laws.antt =====
-- What the Keychain policy promises, whichever process runs beside it.
use avault.Prelude.{
  ◌≡◌, sym, ◌∙◌, inl, inr, Bool, true, false, ◌&&◌, Option, none, some, arith, length,
}
use avault.Prelude.Bytes.{Bytes, eq_bytes_iff}
use avault.Prelude.Result.{Result, ok, err, Result-cases}
use mathlib.Core.Option.{some-injective}
use mathlib.Core.Path.{subst}
use avault.Prelude.Action.{attempt}
use avault.Store.{StoreError, Disk, IoFaults, machine_key, exists, master_key_bytes}
use avault.Store.FileStore
use avault.Store.FileStore.Laws.{Holds, get-Holds, import-Holds}
use avault.Store.Keychain.{
  KeychainBackend, same_key, migrate_added, migrate_read, migrate_file_key_to_keychain,
  create_added, create_missing, get_or_create_keychain_key, import_keychain_key,
  load_existing_file_master_key, load_found, load_auto_master_key_with, import_auto_master_key,
}

-- What the code relies on. `held` is the item of the Keychain. Another process may add an item at
-- any time, but not replace one.
pub record KeychainLaws {W : Type 0} (k : KeychainBackend W) : Type 0 where
  pub held : W → Option Bytes
  pub read-ok : (w : W) {key : Bytes} → (k.read w).1 ≡ ok key → held (k.read w).0 ≡ some key
  pub read-kept : (w : W) {key : Bytes} → held w ≡ some key → held (k.read w).0 ≡ some key
  pub add-ok : (key : Bytes) (w : W) → (k.add key w).1 ≡ ok tt → held (k.add key w).0 ≡ some key
  pub add-kept :
      (key : Bytes) (w : W) {old : Bytes} → held w ≡ some old → held (k.add key w).0 ≡ some old
  pub replace-ok :
      (key : Bytes) (w : W) → (k.replace key w).1 ≡ ok tt → held (k.replace key w).0 ≡ some key

module _ {W : Type 0} (k : KeychainBackend W) where
  migrate_added-key :
      (file_key : Bytes) (r : Result StoreError (Unit {0})) (w : W) (key : Bytes)
      → (migrate_added k file_key r w).1 ≡ ok key
      → key ≡ file_key
  unfolding migrate_added same_key
  migrate_added-key file_key (ok u) w key h = ground arith
  migrate_added-key file_key (err e) w key h = ground (arith, eq_bytes_iff key file_key)

  migrate_read-key :
      (file_key : Bytes) (r : Result StoreError Bytes) (w : W) (key : Bytes)
      → (migrate_read k file_key r w).1 ≡ ok key
      → key ≡ file_key
  unfolding migrate_read same_key
  migrate_read-key file_key (ok found) w key h = ground (arith, eq_bytes_iff found file_key)
  migrate_read-key file_key (err e) w key h =
      ground (arith, migrate_added-key file_key (k.add file_key w).1 (k.add file_key w).0 key)

  -- Beside a key file that can be read, a successful load returns its key, whatever the Keychain
  -- does.
  pub load_auto_master_key_with-file_key :
      (faults : IoFaults) (create : Bool) (new_key : Bytes) (d : Disk) (w : W)
      {file_key key : Bytes}
      → (FileStore.get faults machine_key d).1 ≡ ok file_key
      → (load_auto_master_key_with k faults true create new_key d w).1 ≡ ok key
      → key ≡ file_key
  unfolding load_auto_master_key_with load_found load_existing_file_master_key
      migrate_file_key_to_keychain
  load_auto_master_key_with-file_key faults create new_key d w {file_key} {key} f h = ground (
    arith,
    (get-Holds faults machine_key d f).entry_is,
    migrate_read-key file_key (k.read w).1 (k.read w).0 key,
  )

module _ {W : Type 0} (k : KeychainBackend W) (laws : KeychainLaws k) where
  create_added-held :
      (new_key : Bytes) (w : W) (key : Bytes)
      → (attempt (k.add new_key) (create_added k new_key) w).1 ≡ ok key
      → laws.held (attempt (k.add new_key) (create_added k new_key) w).0 ≡ some key
  unfolding create_added
  create_added-held new_key w key h =
      let a = k.add new_key w in
      elim (Result-cases a.1) [
        | inl (u, e) ↦ ground (arith, laws.add-ok new_key w e)
        | inr (x, e) ↦ ground (arith, laws.read-ok a.0 {key = key})
      ]

  create_missing-held :
      (new_key : Bytes) (w : W) (key : Bytes)
      → (get_or_create_keychain_key k new_key w).1 ≡ ok key
      → laws.held (get_or_create_keychain_key k new_key w).0 ≡ some key
  unfolding get_or_create_keychain_key create_missing
  create_missing-held new_key w key h = elim (Result-cases (k.read w).1) [
    | inl (found, e) ↦ ground (arith, laws.read-ok w e)
    | inr (x, e) ↦ ground (arith, create_added-held new_key (k.read w).0 key)
  ]

  -- The key that a load without a key file returns is held by the Keychain.
  load_auto_master_key_with-held :
      (faults : IoFaults) (has_store create : Bool) (new_key : Bytes) (d : Disk) (w : W)
      (key : Bytes)
      → (has_store && exists d machine_key) ≡ false
      → (load_auto_master_key_with k faults has_store create new_key d w).1 ≡ ok key
      → laws.held (load_auto_master_key_with k faults has_store create new_key d w).0 ≡ some key
  unfolding load_auto_master_key_with load_found load_existing_file_master_key
  load_auto_master_key_with-held faults has_store create new_key d w key n h =
      ground (arith, create_missing-held new_key w key, laws.read-ok w {key = key})

  create_missing-kept :
      (new_key : Bytes) (w : W) (old : Bytes)
      → laws.held w ≡ some old
      → laws.held (get_or_create_keychain_key k new_key w).0 ≡ some old
  unfolding get_or_create_keychain_key create_missing create_added
  create_missing-kept new_key w old h =
      let r = k.read w in
      let a = k.add new_key r.0 in
      ground (
        arith,
        laws.read-kept w h,
        laws.add-kept new_key r.0 {old = old},
        laws.read-kept a.0 {key = old},
      )

  migrate-kept :
      (file_key : Bytes) (w : W) (old : Bytes)
      → laws.held w ≡ some old
      → laws.held (migrate_file_key_to_keychain k file_key w).0 ≡ some old
  unfolding migrate_file_key_to_keychain migrate_read migrate_added same_key
  migrate-kept file_key w old h =
      let r = k.read w in
      let a = k.add file_key r.0 in
      ground (
        arith,
        laws.read-kept w h,
        laws.add-kept file_key r.0 {old = old},
        laws.read-kept a.0 {key = old},
      )

  load_found-kept :
      (create : Bool) (new_key : Bytes) (w : W) (old : Bytes) (r : Result StoreError (Option Bytes))
      → laws.held w ≡ some old
      → laws.held (load_found k create new_key r w).0 ≡ some old
  unfolding load_found
  load_found-kept create new_key w old (err e) h = h
  load_found-kept create new_key w old (ok (some file_key)) h = migrate-kept file_key w old h
  load_found-kept create new_key w old (ok none) h =
      ground (arith, create_missing-kept new_key w old h, laws.read-kept w h)

  -- No load replaces the item of the Keychain.
  pub load_auto_master_key_with-kept :
      (faults : IoFaults) (has_store create : Bool) (new_key : Bytes) (d : Disk) (w : W)
      (old : Bytes)
      → laws.held w ≡ some old
      → laws.held (load_auto_master_key_with k faults has_store create new_key d w).0 ≡ some old
  unfolding load_auto_master_key_with
  load_auto_master_key_with-kept faults has_store create new_key d w old h =
      load_found-kept create new_key w old (load_existing_file_master_key faults has_store d) h

  -- Two successful loads without a key file return one key, whichever key each would generate, if
  -- reads and additions of the Keychain replace no item and nobody removes the item between the
  -- loads.
  pub load_auto_master_key_with-agree :
      (faults faults' : IoFaults) (has_store create create' : Bool) (new_key new_key' : Bytes)
      (d : Disk) (w w' : W) {key key' : Bytes}
      → (has_store && exists d machine_key) ≡ false
      → (load_auto_master_key_with k faults has_store create new_key d w).1 ≡ ok key
      → ((g : Bytes)
          → laws.held (load_auto_master_key_with k faults has_store create new_key d w).0 ≡ some g
          → laws.held w' ≡ some g)
      → (load_auto_master_key_with k faults' has_store create' new_key' d w').1 ≡ ok key'
      → key' ≡ key
  load_auto_master_key_with-agree faults faults' has_store create create' new_key new_key' d w w'
        {key} {key'} n h still h' =
      let first = load_auto_master_key_with-held faults has_store create new_key d w key n h in
      let kept =
        load_auto_master_key_with-kept faults' has_store create' new_key' d w' key
          (still key first) in
      let second =
        load_auto_master_key_with-held faults' has_store create' new_key' d w' key' n h' in
      some-injective _ _ (sym second ∙ kept)

  -- A forced import beside a key file that succeeds stores the key in the Keychain and in the
  -- file, with private modes, if a replacement of the item stores it.
  pub import_auto_master_key-force :
      (faults : IoFaults) (key : Bytes) (d : Disk) (w : W)
      → length key ≡ master_key_bytes
      → exists d machine_key ≡ true
      → (import_auto_master_key k faults true key true (d, w)).1 ≡ ok tt
      → (laws.held (import_auto_master_key k faults true key true (d, w)).0.1 ≡ some key)
        × Holds machine_key key (import_auto_master_key k faults true key true (d, w)).0.0
  unfolding import_auto_master_key import_keychain_key
  import_auto_master_key-force faults key d w l x h =
      let file = FileStore.import faults machine_key key true d in
      let r = k.replace key w in
      let replaced : r.1 ≡ ok tt = ground arith in
      let imported : file.1 ≡ ok tt = ground arith in
      let same : (import_auto_master_key k faults true key true (d, w)).0.0 ≡ file.0 =
        ground arith in
      (
        ground (arith, laws.replace-ok key w replaced),
        subst (Holds machine_key key) (sym same)
            (import-Holds faults machine_key key true d l imported),
      )

  -- An import without force replaces neither the item of the Keychain nor any file, if an addition
  -- replaces no item.
  pub import_auto_master_key-kept :
      (faults : IoFaults) (has_store : Bool) (key : Bytes) (d : Disk) (w : W) (old : Bytes)
      → laws.held w ≡ some old
      → (laws.held (import_auto_master_key k faults has_store key false (d, w)).0.1 ≡ some old)
        × ((import_auto_master_key k faults has_store key false (d, w)).0.0 ≡ d)
  unfolding import_auto_master_key import_keychain_key
  import_auto_master_key-kept faults has_store key d w old h =
      (ground (arith, laws.add-kept key w {old = old} h), ground arith)
