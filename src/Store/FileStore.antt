-- ===== src/Store/FileStore.antt =====
-- `FileStore`: the master key as a file of 32 bytes.
pub mod Laws
use avault.Prelude.{Bool, false, not, ◌&&◌, none, some, ◌==◌, if◌then◌else◌, length}
use avault.Prelude.Bytes.{Bytes}
use avault.Prelude.Result.{Result, ok, err, bail_if}
use avault.Prelude.Action.{Action, done, attempt, ◌>>=◌, ◌>>◌}
use avault.Store.{
  not_found, already_exists, StoreError, io, invalid_length, key_exists, StorePath, Disk, IoFaults,
  master_key_bytes, validate_directory_mode, validate_file_mode, exists, checks, ensure_parent,
  install, settle,
}

-- `File::open` and the reads.
abbrev read_key : IoFaults → StorePath → Action Disk StoreError Bytes
read_key faults path d = elim (d.files path) [
  | none ↦ (d, err (io not_found))
  | some entry ↦ elim faults.read [
    | some kind ↦ (d, err (io kind))
    | none ↦
        if length entry.bytes == master_key_bytes
        then (d, ok entry.bytes)
        else (d, err invalid_length)
  ]
]

unfoldable pub get : IoFaults → StorePath → Action Disk StoreError Bytes
get faults path = do
  checks validate_directory_mode
  checks (λ d. validate_file_mode d path)
  read_key faults path

refuse_existing : Bool → StorePath → Action Disk StoreError (Unit {0})
refuse_existing force path = checks (λ d. bail_if (exists d path && not force) key_exists)

unfoldable pub import : IoFaults → StorePath → Bytes → Bool → Action Disk StoreError (Unit {0})
unfolding refuse_existing
import faults path key force = do
  ensure_parent faults
  refuse_existing force path
  install faults force path key
  settle faults path

-- The `match` on `persist_noclobber`.
unfoldable pub after_install :
    IoFaults → StorePath → Result StoreError (Unit {0}) → Action Disk StoreError (Unit {0})
after_install faults path (ok u) d = settle faults path d
after_install faults path (err (io already_exists)) d = (d, ok tt)
after_install faults path (err e) d = (d, err e)

-- `key` is the key that is generated.
unfoldable pub create_atomic : IoFaults → StorePath → Bytes → Action Disk StoreError (Unit {0})
create_atomic faults path key =
    ensure_parent faults >> attempt (install faults false path key) (after_install faults path)

-- The faults of the first reading, of the creation, and of the second reading.
unfoldable pub get_or_create :
    IoFaults → IoFaults → IoFaults → StorePath → Bytes → Action Disk StoreError Bytes
get_or_create first creating second path key = attempt (get first path) (elim [
  | ok found ↦ done (ok found)
  | err e ↦ create_atomic creating path key >> get second path
])
