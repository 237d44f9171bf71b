-- ===== src/Store/FileStore/Laws.antt =====
-- What the file store promises: it keeps the files of others, and returns the key that it stored.
use avault.Prelude.{
  ℕ, ◌≡◌, refl, sym, ◌∙◌, inl, inr, Bool, false, none, some, arith, Option-cases, length,
}
use avault.Prelude.Bytes.{Bytes}
use avault.Prelude.Result.{ok, Result-cases}
use mathlib.Core.Path.{subst}
use avault.Prelude.Maps.{beq_refl}
use avault.Store.{
  StorePath, FileEntry, Disk, IoFaults, path_eq, eq_path_iff, master_key_bytes, private_mode,
  too_open, validate_directory_mode, validate_file_mode, ensure_secret_parent_directory,
  ensure_parent, install, settle,
}
use avault.Store.FileStore.{get, import, after_install, create_atomic, get_or_create}

-- The directory and the file are private, and the file holds the key.
pub record Holds (path : StorePath) (key : Bytes) (d : Disk) : Type 0 where
  pub directory_mode : ℕ
  pub entry : FileEntry
  pub directory_is : d.directory ≡ some directory_mode
  pub directory_private : too_open directory_mode ≡ false
  pub entry_is : d.files path ≡ some entry
  pub entry_private : too_open entry.mode ≡ false
  pub bytes_are : entry.bytes ≡ key
  pub key_length : length key ≡ master_key_bytes

abbrev pub no_faults : IoFaults
no_faults = record {
  create_dir = none;
  read = none;
  write_temp = none;
  persist = none;
  sync = none;
}

pub get-same : (faults : IoFaults) (path : StorePath) (d : Disk) → (get faults path d).0 ≡ d
unfolding get validate_directory_mode validate_file_mode
get-same faults path d = ground arith

pub get-Holds :
    (faults : IoFaults) (path : StorePath) (d : Disk) {key : Bytes}
    → (get faults path d).1 ≡ ok key
    → Holds path key d
unfolding get validate_directory_mode validate_file_mode
get-Holds faults path d {key} h = elim (Option-cases d.directory) [
  | inl n ↦ absurd (ground arith)
  | inr (m, e) ↦ elim (Option-cases (d.files path)) [
    | inl n ↦ absurd (ground arith)
    | inr (entry, f) ↦ record {
      directory_mode = m;
      entry = entry;
      directory_is = e;
      directory_private = ground arith;
      entry_is = f;
      entry_private = ground arith;
      bytes_are = ground arith;
      key_length = ground arith;
    }
  ]
]

pub Holds-get :
    (faults : IoFaults) (path : StorePath) (key : Bytes) (d : Disk)
    → faults.read ≡ none
    → Holds path key d
    → (get faults path d).1 ≡ ok key
unfolding get validate_directory_mode validate_file_mode
Holds-get faults path key d n h = ground (
  arith, h.directory_is, h.directory_private, h.entry_is, h.entry_private, h.bytes_are,
  h.key_length,
)

-- Every file that was there is still there, unchanged.
abbrev pub Keeps : Disk → Disk → Type 0
Keeps d d' = (p : StorePath) (e : FileEntry) → d.files p ≡ some e → d'.files p ≡ some e

abbrev pub Private : Disk → Type 0
Private d = (m : ℕ) × (d.directory ≡ some m) × (too_open m ≡ false)

pub ensure_parent-files :
    (faults : IoFaults) (d : Disk) → (ensure_parent faults d).0.files ≡ d.files
unfolding ensure_parent ensure_secret_parent_directory validate_directory_mode
ensure_parent-files faults d = ground arith

pub ensure_parent-Private :
    (faults : IoFaults) (d : Disk)
    → (ensure_parent faults d).1 ≡ ok tt
    → Private (ensure_parent faults d).0
unfolding ensure_parent ensure_secret_parent_directory validate_directory_mode
ensure_parent-Private faults d h = elim (Option-cases d.directory) [
  | inr (m, e) ↦ (m, ground arith, ground arith)
  | inl n ↦ (448, ground arith, refl)
]

abbrev pub Stored : StorePath → Bytes → Disk → Disk → Type 0
Stored path bytes d d' =
    (d'.files path ≡ some (record { bytes = bytes; mode = private_mode }))
    × (d'.directory ≡ d.directory)

pub install-Stored :
    (faults : IoFaults) (force : Bool) (path : StorePath) (bytes : Bytes) (d : Disk)
    → (install faults force path bytes d).1 ≡ ok tt
    → Stored path bytes d (install faults force path bytes d).0
unfolding install
install-Stored faults force path bytes d h = ground (arith, beq_refl ⦃e = path_eq⦄ path)

pub install-Keeps :
    (faults : IoFaults) (path : StorePath) (bytes : Bytes) (d : Disk)
    → Keeps d (install faults false path bytes d).0
unfolding install
install-Keeps faults path bytes d p e h = ground (arith, eq_path_iff path p)

pub settle-same : (faults : IoFaults) (path : StorePath) (d : Disk) → (settle faults path d).0 ≡ d
unfolding settle validate_file_mode
settle-same faults path d = ground arith

Stored-Holds :
    (path : StorePath) (key : Bytes) (d d' : Disk)
    → length key ≡ master_key_bytes
    → Private d
    → Stored path key d d'
    → Holds path key d'
Stored-Holds path key d d' l (m, e, p) (f, same) = record {
  directory_mode = m;
  entry = record { bytes = key; mode = private_mode };
  directory_is = same ∙ e;
  directory_private = p;
  entry_is = f;
  entry_private = refl;
  bytes_are = refl;
  key_length = l;
}

-- An import that succeeds stores the key, and the file and its directory are private.
pub import-Holds :
    (faults : IoFaults) (path : StorePath) (key : Bytes) (force : Bool) (d : Disk)
    → length key ≡ master_key_bytes
    → (import faults path key force d).1 ≡ ok tt
    → Holds path key (import faults path key force d).0
unfolding import
import-Holds faults path key force d l h =
    let e = ensure_parent faults d in
    let i = install faults force path key e.0 in
    let first : e.1 ≡ ok tt = ground arith in
    let second : i.1 ≡ ok tt = ground arith in
    let third : (import faults path key force d).0 ≡ i.0 =
      ground (arith, settle-same faults path i.0) in
    subst (Holds path key) (sym third) (
      Stored-Holds path key e.0 i.0 l (ensure_parent-Private faults d first)
        (install-Stored faults force path key e.0 second))

-- A key of 32 bytes whose import succeeds is returned by a read of the file, if reading does not
-- fail.
pub get-import :
    (faults later : IoFaults) (path : StorePath) (key : Bytes) (force : Bool) (d : Disk)
    → length key ≡ master_key_bytes
    → later.read ≡ none
    → (import faults path key force d).1 ≡ ok tt
    → (get later path (import faults path key force d).0).1 ≡ ok key
get-import faults later path key force d l n h =
    Holds-get later path key (import faults path key force d).0 n
      (import-Holds faults path key force d l h)

-- An import without force leaves every file that exists as it was.
pub import-kept :
    (faults : IoFaults) (path : StorePath) (key : Bytes) (d : Disk) (p : StorePath)
    (entry : FileEntry)
    → d.files p ≡ some entry
    → (import faults path key false d).0.files p ≡ some entry
unfolding import
import-kept faults path key d p entry f =
    let e = ensure_parent faults d in
    let i = install faults false path key e.0 in
    ground (
      arith,
      ensure_parent-files faults d,
      install-Keeps faults path key e.0 p entry,
      settle-same faults path i.0,
    )

pub create_atomic-Keeps :
    (faults : IoFaults) (path : StorePath) (key : Bytes) (d : Disk)
    → Keeps d (create_atomic faults path key d).0
unfolding create_atomic after_install
create_atomic-Keeps faults path key d p entry f =
    let e = ensure_parent faults d in
    let i = install faults false path key e.0 in
    ground (
      arith,
      ensure_parent-files faults d,
      install-Keeps faults path key e.0 p entry,
      settle-same faults path i.0,
    )

-- A key that the file store loaded or created is returned by a read of the file, if reading does
-- not fail.
pub get_or_create-again :
    (first creating second later : IoFaults) (path : StorePath) (new_key : Bytes) (d : Disk)
    {key : Bytes}
    → later.read ≡ none
    → (get_or_create first creating second path new_key d).1 ≡ ok key
    → (get later path (get_or_create first creating second path new_key d).0).1 ≡ ok key
unfolding get_or_create
get_or_create-again first creating second later path new_key d {key} n h =
    let c = create_atomic creating path new_key d in
    elim (Result-cases (get first path d).1) [
      | inl (found, e) ↦
          let same : (get_or_create first creating second path new_key d).0 ≡ d =
            ground (arith, get-same first path d) in
          subst (λ x. (get later path x).1 ≡ ok key) (sym same)
            (Holds-get later path key d n (get-Holds first path d (e ∙ ground arith)))
      | inr (x, e) ↦
          let read : (get second path c.0).1 ≡ ok key = ground (arith, get-same first path d) in
          let same : (get_or_create first creating second path new_key d).0 ≡ c.0 =
            ground (arith, get-same first path d, get-same second path c.0) in
          subst (λ x. (get later path x).1 ≡ ok key) (sym same)
            (Holds-get later path key c.0 n (get-Holds second path c.0 read))
    ]

pub get_or_create-Keeps :
    (first creating second : IoFaults) (path : StorePath) (new_key : Bytes) (d : Disk)
    → Keeps d (get_or_create first creating second path new_key d).0
unfolding get_or_create
get_or_create-Keeps first creating second path new_key d p entry f = ground (
  arith,
  get-same first path d,
  get-same second path (create_atomic creating path new_key d).0,
  create_atomic-Keeps creating path new_key d p entry,
)

pub get_or_create-Holds :
    (first creating second : IoFaults) (path : StorePath) (new_key : Bytes) (d : Disk) (key : Bytes)
    → (get_or_create first creating second path new_key d).1 ≡ ok key
    → Holds path key (get_or_create first creating second path new_key d).0
get_or_create-Holds first creating second path new_key d key h =
    get-Holds no_faults path (get_or_create first creating second path new_key d).0
      (get_or_create-again first creating second no_faults path new_key d refl h)
