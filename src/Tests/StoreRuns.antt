-- ===== src/Tests/StoreRuns.antt =====
-- The stores on concrete disks, with a Keychain that is one item and a TPM that seals nothing.
use avault.Prelude.{
  ◌+◌, ◌-◌, ◌≤◌, ◌≡◌, refl, sym, ap, true, false, Option, none, some, [], arith, leb, if◌then◌else◌,
}
use avault.Prelude.Bytes.{Bytes, codes, eq_bytes}
use avault.Prelude.Result.{Result, ok, err, or_fail, or_fail-eq-ok, ok-injective}
use avault.Store.{
  StoreError, io, permission_denied, keys_differ, keychain, item_not_found, duplicate_item,
  user_canceled, machine_key, tpm_json, Disk, path_eq, ensure_parent,
  ensure_secret_parent_directory, validate_directory_mode, validate_file_mode, install, settle,
  cooldown,
}
use avault.Store.FileStore
use avault.Store.FileStore.{after_install, create_atomic}
use avault.Store.FileStore.Laws.{no_faults}
use avault.Store.Keychain.{
  KeychainBackend, load_auto_master_key_with, load_existing_file_master_key,
  migrate_file_key_to_keychain, get_or_create_keychain_key, import_keychain_key,
  import_auto_master_key,
}
use avault.Store.Keychain.Laws.{KeychainLaws, load_auto_master_key_with-agree}
use avault.Prelude.Text.{trim, trim_start, trim_end}
use avault.Store.Keychain.Cooldown.{
  keychain_authorization_cooldown, authorize_with_gate, parse_digits, parse_u64,
}
use avault.Store.Keychain.Cooldown.Window.{
  keychain_authorization_cooldown-window, authorize_with_gate-denied,
}
use avault.Store.Tpm.{TpmBackend, get_with, write_tpm_blob, create_with, get_or_create_with}
use avault.Store.Tpm.Policy.{
  Faults, migrate_file_key_to_tpm, load_or_create_linux_auto_master_key, load_linux_auto_master_key,
}
use avault.Store.Tpm.Policy.Current.{TpmLaws, load_linux_auto_master_key-again}

abbrev key : Bytes
key = codes "0123456789abcdef0123456789abcdef"

abbrev new_key : Bytes
new_key = codes "ABCDEFGHIJKLMNOPABCDEFGHIJKLMNOP"

abbrev empty_disk : Disk
empty_disk = record { directory = none; files = λ p. none }

abbrev key_disk : Disk
key_disk = record {
  directory = some 448;
  files =
      λ p. if path_eq.beq machine_key p then some (record { bytes = key; mode = 384 }) else none;
}

abbrev tpm_disk : Disk
tpm_disk = record {
  directory = some 448;
  files = λ p. if path_eq.beq tpm_json p then some (record { bytes = key; mode = 384 }) else none;
}

imports : (FileStore.import no_faults machine_key key false empty_disk).1 ≡ ok tt
unfolding FileStore.import ensure_parent ensure_secret_parent_directory validate_directory_mode
    validate_file_mode install settle
imports = refl

creates :
    (FileStore.get_or_create no_faults no_faults no_faults machine_key key empty_disk).1 ≡ ok key
unfolding FileStore.get_or_create FileStore.get create_atomic after_install ensure_parent
    ensure_secret_parent_directory validate_directory_mode validate_file_mode install settle
creates = refl

abbrev toy_keychain : KeychainBackend (Option Bytes)
toy_keychain = record {
  read = λ w. (w, or_fail w (keychain item_not_found));
  add = λ new w. elim w [
    | none ↦ (some new, ok tt)
    | some old ↦ (some old, err (keychain duplicate_item))
  ];
  replace = λ new w. (some new, ok tt);
}

toy_add-ok :
    (new : Bytes) (w : Option Bytes)
    → (toy_keychain.add new w).1 ≡ ok tt
    → (toy_keychain.add new w).0 ≡ some new
toy_add-ok new none h = refl
toy_add-ok new (some old) h = absurd (cc)

toy_add-kept :
    (new : Bytes) (w : Option Bytes) {old : Bytes}
    → w ≡ some old
    → (toy_keychain.add new w).0 ≡ some old
toy_add-kept new none h = absurd (cc)
toy_add-kept new (some old) h = h

abbrev toy_keychain_laws : KeychainLaws toy_keychain
toy_keychain_laws = record {
  held = λ w. w;
  read-ok = λ w h. or_fail-eq-ok w _ h;
  read-kept = λ w h. h;
  add-ok = toy_add-ok;
  add-kept = toy_add-kept;
  replace-ok = λ new w h. refl;
}

migrates :
    (load_auto_master_key_with toy_keychain no_faults true true new_key key_disk none).1 ≡ ok key
unfolding load_auto_master_key_with load_existing_file_master_key migrate_file_key_to_keychain
    FileStore.get validate_directory_mode validate_file_mode
migrates = refl

reads_file : (FileStore.get no_faults machine_key key_disk).1 ≡ ok key
unfolding FileStore.get validate_directory_mode validate_file_mode
reads_file = refl

creates_item :
    (load_auto_master_key_with toy_keychain no_faults true true key empty_disk none).1 ≡ ok key
unfolding load_auto_master_key_with load_existing_file_master_key get_or_create_keychain_key
creates_item = refl

finds_item :
    (load_auto_master_key_with toy_keychain no_faults true true new_key empty_disk (some key)).1
    ≡ ok key
unfolding load_auto_master_key_with load_existing_file_master_key get_or_create_keychain_key
finds_item = refl

still_held :
    (g : Bytes)
    → (load_auto_master_key_with toy_keychain no_faults true true key empty_disk none).0 ≡ some g
    → some key ≡ some g
unfolding load_auto_master_key_with load_existing_file_master_key get_or_create_keychain_key
still_held g h = h

load_auto_master_key_with-agree_example : key ≡ key
load_auto_master_key_with-agree_example =
    load_auto_master_key_with-agree toy_keychain toy_keychain_laws no_faults no_faults true true
      true key new_key empty_disk none (some key) refl creates_item still_held finds_item

imports_both :
    (import_auto_master_key toy_keychain no_faults true new_key true (key_disk, none)).1 ≡ ok tt
unfolding import_auto_master_key import_keychain_key FileStore.import ensure_parent
    ensure_secret_parent_directory validate_directory_mode validate_file_mode install settle
imports_both = refl

waits : (keychain_authorization_cooldown (codes "1100") 1000).1 ≡ some 100
unfolding keychain_authorization_cooldown trim trim_start trim_end parse_u64 parse_digits
waits = refl

keychain_authorization_cooldown-window_example :
    (100 ≤ 120)
    × ((keychain_authorization_cooldown
          (keychain_authorization_cooldown (codes "1100") 1000).0
          1050).1
        ≡ (if leb (1000 + 100) 1050 then none else some (1000 + 100 - 1050)))
keychain_authorization_cooldown-window_example =
    keychain_authorization_cooldown-window (codes "1100") 1000 100 1050 (omega arith) (omega arith)
      waits

abbrev denial : Result StoreError Bytes
denial = err (keychain user_canceled)

no_cooldown : (keychain_authorization_cooldown [] 1000).1 ≡ none
unfolding keychain_authorization_cooldown
no_cooldown = refl

authorize_with_gate-denied_example :
    authorize_with_gate
      (some true)
      1080
      1080
      (ok key)
      (ok key)
      (authorize_with_gate (some false) 1000 1010 denial denial []).0
    ≡ (
      (authorize_with_gate (some false) 1000 1010 denial denial []).0,
      err (cooldown (1010 + 120 - 1080)),
    )
authorize_with_gate-denied_example =
    authorize_with_gate-denied [] 1000 1010 1080 1080 true denial (ok key) (ok key)
      (keychain user_canceled) (omega arith) refl no_cooldown (omega arith) (omega arith)

abbrev toy_tpm : TpmBackend
toy_tpm = record {
  Blob = Bytes;
  seal_master_key = ok;
  unseal_master_key = ok;
  to_json = λ blob. blob;
  from_json = some;
}

abbrev toy_tpm_laws : TpmLaws toy_tpm
toy_tpm_laws = record {
  unseal-seal = λ key h. ap ok (sym (ok-injective h));
  from-to_json = λ blob. refl;
}

abbrev calm : Faults
calm n = no_faults

creates_sealed :
    (load_or_create_linux_auto_master_key toy_tpm calm key new_key empty_disk).1 ≡ ok key
unfolding load_or_create_linux_auto_master_key get_or_create_with get_with create_with
    write_tpm_blob ensure_parent ensure_secret_parent_directory validate_directory_mode
    validate_file_mode install settle
creates_sealed = refl

loads_sealed :
    (load_linux_auto_master_key toy_tpm calm
      (load_or_create_linux_auto_master_key toy_tpm calm key new_key empty_disk).0).1
    ≡ ok key
unfolding load_linux_auto_master_key load_or_create_linux_auto_master_key get_or_create_with
    get_with create_with write_tpm_blob ensure_parent ensure_secret_parent_directory
    validate_directory_mode validate_file_mode install settle
loads_sealed = refl

load_linux_auto_master_key-again_example : key ≡ key
load_linux_auto_master_key-again_example =
    load_linux_auto_master_key-again toy_tpm toy_tpm_laws calm calm key new_key empty_disk
      creates_sealed loads_sealed

-- Where the directory cannot be opened for its sync, the sealed key is installed, and then the file
-- store installs another: the next load refuses both.
abbrev unreadable : Faults
unreadable n = record no_faults { sync = some permission_denied }

sync_denied :
    (load_or_create_linux_auto_master_key toy_tpm unreadable key new_key empty_disk).1
    ≡ err (io permission_denied)
unfolding load_or_create_linux_auto_master_key get_or_create_with get_with create_with
    write_tpm_blob FileStore.get_or_create FileStore.get create_atomic after_install ensure_parent
    ensure_secret_parent_directory validate_directory_mode validate_file_mode install settle
sync_denied = refl

sync_denied_keys_differ :
    (load_linux_auto_master_key toy_tpm calm
      (load_or_create_linux_auto_master_key toy_tpm unreadable key new_key empty_disk).0).1
    ≡ err keys_differ
unfolding load_linux_auto_master_key migrate_file_key_to_tpm load_or_create_linux_auto_master_key
    get_or_create_with get_with create_with write_tpm_blob FileStore.get_or_create FileStore.get
    create_atomic after_install ensure_parent ensure_secret_parent_directory validate_directory_mode
    validate_file_mode install settle eq_bytes
sync_denied_keys_differ = refl
