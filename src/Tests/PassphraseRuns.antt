-- ===== src/Tests/PassphraseRuns.antt =====
-- The passphrase store over the toy cipher.
use avault.Prelude.Action.{done}
use avault.Store.{passphrase_required}
use avault.Store.Passphrase.Wrap.{PassphraseError, store}
use avault.Cli.Commands.{
  MasterStore, passphrase_store, load_existing_master_from_unlock, import_master_with_unlock,
}
use avault.Cli.Commands.Stores.{Session, stores, load-import}
use avault.Prelude.{
  ◌≡◌, refl, false, Option, none, some, [], ◌∷◌, take, drop, drop-append, take-append,
}
use avault.Prelude.Bytes.{Bytes, codes}
use avault.Prelude.Result.{ok, err}
use avault.Tests.ToyCrypto.{frame, toy_crypto, toy_laws}
use avault.Core.Scrypt.{
  validate_scrypt_params, derive_kek_scrypt, is_power_of_two, power_below, checked_ilog2,
  ilog2_below,
}
use avault.Store.{
  Disk, ensure_parent, ensure_secret_parent_directory, validate_directory_mode, validate_file_mode,
  install, settle,
}
use avault.Store.FileStore.Laws.{no_faults}
use avault.Store.Passphrase
use avault.Store.Passphrase.{BlobJson}
use avault.Store.Passphrase.Wrap.{PassphraseMasterBlob, validate_passphrase, wrap_passphrase_master}
use avault.Store.Passphrase.Laws.{JsonLaws}

abbrev print_blob : PassphraseMasterBlob → Bytes
print_blob b =
    b.n ∷ b.r ∷ b.p ∷ frame b.scheme (frame b.kdf (frame b.salt (frame b.nonce b.wrapped_master)))

abbrev unframed :
    (Bytes → Bytes → Option PassphraseMasterBlob) → Bytes → Option PassphraseMasterBlob
unframed k [] = none
unframed k (n ∷ rest) = k (take n rest) (drop n rest)

abbrev parse_blob : Bytes → Option PassphraseMasterBlob
parse_blob (n ∷ r ∷ p ∷ rest) =
    unframed
      (λ scheme r1.
        unframed
          (λ kdf r2.
            unframed
              (λ salt r3.
                unframed
                  (λ nonce r4. some (record {
                    scheme = scheme;
                    kdf = kdf;
                    n = n;
                    r = r;
                    p = p;
                    salt = salt;
                    nonce = nonce;
                    wrapped_master = r4;
                  }))
                  r3)
              r2)
          r1)
      rest
parse_blob _ = none

abbrev toy_json : BlobJson
toy_json = record { to_json = print_blob; from_json = parse_blob }

abbrev toy_json_laws : JsonLaws toy_json
toy_json_laws = record { from-to_json = λ blob. simp (take-append, drop-append) }

abbrev key : Bytes
key = codes "0123456789abcdef0123456789abcdef"

abbrev nonce : Bytes
nonce = codes "nonce-012345"

abbrev empty_disk : Disk
empty_disk = record { directory = none; files = λ p. none }

imports :
    (Passphrase.import toy_crypto toy_json no_faults nonce nonce key
      (codes "pass")
      false
      empty_disk).1
    ≡ ok tt
unfolding Passphrase.import validate_passphrase wrap_passphrase_master derive_kek_scrypt
    validate_scrypt_params is_power_of_two power_below checked_ilog2 ilog2_below ensure_parent
    ensure_secret_parent_directory validate_directory_mode validate_file_mode install settle
imports = refl

abbrev no_hardware : MasterStore Disk PassphraseError
no_hardware = record {
  load_master_key = λ backend. done (err (store passphrase_required));
  load_or_create_master_key = λ backend. done (err (store passphrase_required));
  import_master_key = λ backend key force. done (err (store passphrase_required));
  authorize_master_key = λ backend. done (err (store passphrase_required));
  load_passphrase_master_key = λ passphrase. done (err (store passphrase_required));
  load_or_create_passphrase_master_key = λ passphrase. done (err (store passphrase_required));
  import_passphrase_master_key = λ key passphrase force. done (err (store passphrase_required));
}

abbrev session : Session
session = record {
  first = no_faults;
  creating = no_faults;
  second = no_faults;
  salt = nonce;
  nonce = nonce;
  generated = key;
}

abbrev filled : MasterStore Disk PassphraseError
filled = stores toy_crypto toy_json no_hardware session

load-import_example :
    (load_existing_master_from_unlock filled
      (passphrase_store (codes "pass"))
      (import_master_with_unlock filled (passphrase_store (codes "pass")) key false empty_disk).0).1
    ≡ ok key
load-import_example =
    load-import toy_crypto toy_laws toy_json toy_json_laws no_hardware session session
      (passphrase_store (codes "pass")) key false empty_disk tt refl refl refl imports
