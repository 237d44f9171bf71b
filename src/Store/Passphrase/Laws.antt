-- ===== src/Store/Passphrase/Laws.antt =====
-- What the passphrase store promises: an imported key is read back under its passphrase.
use avault.Prelude.{◌≡◌, sym, ◌∙◌, inl, inr, Bool, none, some, arith, length}
use avault.Prelude.Bytes.{Bytes}
use avault.Prelude.Result.{ok, Result-cases}
use mathlib.Core.Path.{subst}
use avault.Core.Crypto.{Crypto, CryptoLaws, nonce_bytes}
use avault.Store.{
  passphrase_json, Disk, IoFaults, master_key_bytes, validate_directory_mode, validate_file_mode,
  ensure_parent, install,
}
use avault.Store.FileStore.Laws.{
  Private, Stored, ensure_parent-Private, install-Stored, settle-same,
}
use avault.Store.Passphrase.{BlobJson, get, import}
use avault.Store.Passphrase.Wrap.{
  PassphraseMasterBlob, validate_passphrase, wrap_passphrase_master, unwrap_passphrase_master,
  unwrap-wrap,
}

-- serde_json reads back what it wrote.
pub record JsonLaws (json : BlobJson) : Type 0 where
  pub from-to_json : (blob : PassphraseMasterBlob) → json.from_json (json.to_json blob) ≡ some blob

module _ (c : Crypto) (laws : CryptoLaws c) (json : BlobJson) (json_laws : JsonLaws json) where
  -- A private file with the JSON of a blob is read as far as unwrapping the blob.
  get-Stored :
      (faults : IoFaults) (passphrase : Bytes) (blob : PassphraseMasterBlob) (d d' : Disk)
      → faults.read ≡ none
      → validate_passphrase passphrase ≡ ok tt
      → Private d
      → Stored passphrase_json (json.to_json blob) d d'
      → (get c json faults passphrase d').1 ≡ unwrap_passphrase_master c blob passphrase
  unfolding get validate_directory_mode validate_file_mode
  get-Stored faults passphrase blob d d' n given (m, e, p) (f, same) =
      let directory : d'.directory ≡ some m = same ∙ e in
      ground (arith, directory, json_laws.from-to_json blob)

  -- A master key whose import under a passphrase succeeds is returned under it, if the key and the
  -- nonce have their lengths, reading does not fail, and ciphers, base64 and JSON give back what
  -- they were given.
  pub get-import_passphrase :
      (faults later : IoFaults) (salt nonce key passphrase : Bytes) (force : Bool) (d : Disk)
      → length nonce ≡ nonce_bytes
      → length key ≡ master_key_bytes
      → later.read ≡ none
      → (import c json faults salt nonce key passphrase force d).1 ≡ ok tt
      → (get c json later passphrase (import c json faults salt nonce key passphrase force d).0).1
        ≡ ok key
  unfolding import
  get-import_passphrase faults later salt nonce key passphrase force d nonce_len key_len n h =
      let e = ensure_parent faults d in
      elim (Result-cases (validate_passphrase passphrase)) [
        | inr (x, g) ↦ absurd (ground arith)
        | inl (u, given) ↦
            elim (Result-cases (wrap_passphrase_master c salt nonce key passphrase)) [
              | inr (x, w) ↦ absurd (ground arith)
              | inl (blob, w) ↦
                  let i = install faults force passphrase_json (json.to_json blob) e.0 in
                  let first : e.1 ≡ ok tt = ground arith in
                  let second : i.1 ≡ ok tt = ground arith in
                  let last : (import c json faults salt nonce key passphrase force d).0 ≡ i.0 =
                    ground (arith, settle-same faults passphrase_json i.0) in
                  subst (λ x. (get c json later passphrase x).1 ≡ ok key) (sym last)
                    (get-Stored later passphrase blob e.0 i.0 n given
                        (ensure_parent-Private faults d first)
                        (install-Stored faults force passphrase_json (json.to_json blob) e.0 second)
                      ∙ unwrap-wrap c laws salt nonce key passphrase nonce_len key_len w)
            ]
      ]
