-- ===== src/Store/Keychain.antt =====
-- The macOS policy for the master key: the Keychain, migration from a key file, and import. The
-- calls of Security.framework are the operations of `KeychainBackend`; one that runs with its
-- prompts disabled fails with the same codes. A generated key is an argument. A context that is
-- added to an error keeps its code and is not modelled.
pub mod Laws
pub mod Cooldown
use avault.Prelude.{Bool, true, false, ◌&&◌, Option, none, some, if◌then◌else◌}
use avault.Prelude.Bytes.{Bytes, eq_bytes}
use avault.Prelude.Result.{Result, ok, err}
use avault.Prelude.Action.{Action, done, attempt, ◌>>=◌, ◌>>◌}
use avault.Store.{
  StoreError, keychain, key_exists, keys_differ, keys_differ_concurrently, item_not_found,
  duplicate_item, not_available, no_default_keychain, interaction_not_allowed, auth_failed,
  user_canceled, Disk, IoFaults, machine_key, exists,
}
use avault.Store.FileStore

-- The trait `KeychainBackend`, on the state of the Keychain and of whatever else runs.
pub record KeychainBackend (W : Type 0) : Type 0 where
  pub read : Action W StoreError Bytes
  pub add : Bytes → Action W StoreError (Unit {0})
  pub replace : Bytes → Action W StoreError (Unit {0})

abbrev pub is_keychain_not_found : StoreError → Bool
is_keychain_not_found (keychain item_not_found) = true
is_keychain_not_found _ = false

abbrev pub is_keychain_duplicate : StoreError → Bool
is_keychain_duplicate (keychain duplicate_item) = true
is_keychain_duplicate _ = false

abbrev pub is_keychain_unavailable : StoreError → Bool
is_keychain_unavailable (keychain not_available) = true
is_keychain_unavailable (keychain no_default_keychain) = true
is_keychain_unavailable (keychain interaction_not_allowed) = true
is_keychain_unavailable _ = false

abbrev pub is_keychain_denial : StoreError → Bool
is_keychain_denial (keychain user_canceled) = true
is_keychain_denial (keychain auth_failed) = true
is_keychain_denial _ = false

-- With no file store where there is no home directory.
unfoldable pub load_existing_file_master_key :
    IoFaults → Bool → Disk → Result StoreError (Option Bytes)
load_existing_file_master_key faults has_store d =
    if has_store && exists d machine_key
    then elim (FileStore.get faults machine_key d).1 [ ok key ↦ ok (some key) | err e ↦ err e ]
    else ok none

module _ {W : Type 0} (k : KeychainBackend W) where
  same_key : Bytes → StoreError → Bytes → Result StoreError Bytes
  same_key file_key differ found = if eq_bytes found file_key then ok found else err differ

  -- The two inner `match`es of the migration.
  migrate_added : Bytes → Result StoreError (Unit {0}) → Action W StoreError Bytes
  unfolding same_key
  migrate_added file_key (ok u) w = (w, ok file_key)
  migrate_added file_key (err e) w =
      if is_keychain_duplicate e
      then (k.read >>= λ found. done (same_key file_key keys_differ_concurrently found)) w
      else if is_keychain_unavailable e
      then (w, ok file_key)
      else (w, err e)

  migrate_read : Bytes → Result StoreError Bytes → Action W StoreError Bytes
  unfolding same_key migrate_added
  migrate_read file_key (ok found) w = (w, same_key file_key keys_differ found)
  migrate_read file_key (err e) w =
      if is_keychain_not_found e
      then attempt (k.add file_key) (migrate_added file_key) w
      else if is_keychain_unavailable e
      then (w, ok file_key)
      else (w, err e)

  unfoldable pub migrate_file_key_to_keychain : Bytes → Action W StoreError Bytes
  unfolding migrate_read
  migrate_file_key_to_keychain file_key = attempt k.read (migrate_read file_key)

  create_added : Bytes → Result StoreError (Unit {0}) → Action W StoreError Bytes
  create_added key (ok u) w = (w, ok key)
  create_added key (err e) w = if is_keychain_duplicate e then k.read w else (w, err e)

  create_missing : Bytes → Result StoreError Bytes → Action W StoreError Bytes
  unfolding create_added
  create_missing key (ok found) w = (w, ok found)
  create_missing key (err e) w =
      if is_keychain_not_found e then attempt (k.add key) (create_added key) w else (w, err e)

  unfoldable pub get_or_create_keychain_key : Bytes → Action W StoreError Bytes
  unfolding create_missing
  get_or_create_keychain_key key = attempt k.read (create_missing key)

  unfoldable pub import_keychain_key : Bytes → Bool → Action W StoreError (Unit {0})
  import_keychain_key key force = if force then k.replace key else k.add key

  load_found : Bool → Bytes → Result StoreError (Option Bytes) → Action W StoreError Bytes
  load_found create new_key (err e) w = (w, err e)
  load_found create new_key (ok (some file_key)) w = migrate_file_key_to_keychain file_key w
  load_found create new_key (ok none) w =
      if create then get_or_create_keychain_key new_key w else k.read w

  unfoldable pub load_auto_master_key_with :
      IoFaults → Bool → Bool → Bytes → Disk → Action W StoreError Bytes
  unfolding load_found
  load_auto_master_key_with faults has_store create new_key d =
      load_found create new_key (load_existing_file_master_key faults has_store d)

  -- The disk and the Keychain change together.
  abbrev on_keychain : {A : Type 0} → Action W StoreError A → Action (Disk × W) StoreError A
  on_keychain m (d, w) = ((d, (m w).0), (m w).1)

  abbrev on_disk : {A : Type 0} → Action Disk StoreError A → Action (Disk × W) StoreError A
  on_disk m (d, w) = (((m d).0, w), (m d).1)

  unfoldable pub import_auto_master_key :
      IoFaults → Bool → Bytes → Bool → Action (Disk × W) StoreError (Unit {0})
  import_auto_master_key faults has_store key force (d, w) =
      if has_store && exists d machine_key
      then (if force
          then (on_keychain (import_keychain_key key true)
                >> on_disk (FileStore.import faults machine_key key true))
              (d, w)
          else ((d, w), err key_exists))
      else on_keychain (import_keychain_key key force) (d, w)
