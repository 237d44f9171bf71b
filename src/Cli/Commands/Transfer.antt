-- ===== src/Cli/Commands/Transfer.antt =====
-- A master key that `avault key export` printed comes in by `avault key import`.
use avault.Prelude.{◌≤◌, ◌≡◌, refl, Bool, true, Option, some, List, ◌++◌, arith, leb, length, all}
use avault.Prelude.Bytes.{Bytes, codes}
use avault.Prelude.Result.{ok, map_err, ok-injective, map_err-eq-ok}
use avault.Prelude.Action.{done, attempt, or_raise, step-eq-ok}
use avault.Core.Crypto.{Crypto, CryptoLaws, nonce_bytes, key_bytes}
use avault.Core.Export.{ExportBlob, export_master_key, import-export}
use avault.Json.{max_stdin_secret_bytes}
use avault.Json.Values.{is_json_ws}
use avault.Json.Spelling.{Piece, meanings}
use avault.Json.Tree.{Json, Members, string, object, print, AreMembers}
use avault.Json.Lookup.{lookup, KeysFit}
use avault.Json.Object.{key_import-print}
use avault.Wire.Delivery.{payload}
use avault.Wire.Input.{trim_trailing_newlines}
use avault.Wire.Input.Whole.{IsQuiet, read_zeroizing_to_cap-capped}
use avault.Cli.{StoreSelection}
use avault.Cli.Options.{parse_flag}
use avault.Cli.Commands.{
  StoreUnlock, MasterStore, CommandError, core_failed, Process, Command, after_read, after_store,
  on_store, read_stdin_zeroizing_from, read_store_unlock, load_existing_master_from_unlock,
  import_master_with_unlock,
}
use avault.Cli.Commands.Key.{
  exported, done_ok, key_export_cmd, key_import_cmd, import_blob_from_json,
}
use avault.Cli.Commands

-- The text that stands on standard input, within the limit, on calls that do not fail.
abbrev pub Waits : {S : Type 0} → Process S → Bytes → Type 0
Waits p text = IsQuiet p.stdin × (payload p.stdin ≡ text) × (length text ≤ max_stdin_secret_bytes)

exported-injective : {a b : ExportBlob} → exported a ≡ exported b → a ≡ b
exported-injective h = cc

module _ {S E : Type 0} where
  read_stdin-Waits :
      (p : Process S) (text : Bytes)
      → Waits p text
      → (left : List Commands.ReadEvent) × (read_stdin_zeroizing_from {E = E} p
          ≡ (record p { stdin = left }, ok text))
  read_stdin-Waits p text (quiet, same, size) =
      let (left, e) = read_zeroizing_to_cap-capped p.stdin max_stdin_secret_bytes quiet in
      let fits : leb (length text) max_stdin_secret_bytes ≡ true = ground arith in
      (left, rw (e, same, fits) refl)

module _ {S E : Type 0} (c : Crypto) (laws : CryptoLaws c) (m : MasterStore S E)
    (salt nonce passphrase master : Bytes) where
  key_export_cmd-exported :
      (config : StoreSelection) (unlock : StoreUnlock) (p p₁ : Process S) (loaded : S)
      {blob : ExportBlob}
      → read_store_unlock {E = E} config p ≡ (p₁, ok unlock)
      → Waits p₁ passphrase
      → load_existing_master_from_unlock m unlock p₁.store ≡ (loaded, ok master)
      → (key_export_cmd c m salt nonce config p).1 ≡ ok (exported blob)
      → export_master_key c salt nonce master (trim_trailing_newlines passphrase) ≡ ok blob
  unfolding key_export_cmd
  key_export_cmd-exported config unlock p p₁ loaded u w l h =
      let (left, r) = read_stdin-Waits {E = E} p₁ passphrase w in
      let made = export_master_key c salt nonce master (trim_trailing_newlines passphrase) in
      let h₁ : (attempt {S = Process S} (done (map_err core_failed made))
            (or_raise (λ blob'. done {E = CommandError E} (ok (exported blob'))))
            (record p₁ { stdin = left; store = loaded })).1
          ≡ ok (exported _) =
        rw (u, r, l) at h in
      let (printed, e, h₂) =
        step-eq-ok {S = Process S} {E = CommandError E} (done (map_err core_failed made)) _ _ h₁ in
      map_err-eq-ok core_failed made (rw (exported-injective (ok-injective h₂)) at e)

  key_import_cmd-exported :
      (parse : Bytes → Option ExportBlob) (args : List Bytes) (force : Bool)
      (config : StoreSelection) (unlock : StoreUnlock) (p p₁ : Process S) (blob : ExportBlob)
      (ws lead trail : Bytes) (ms : Members) (ps : List Piece) (v : Json)
      → length nonce ≡ nonce_bytes
      → length master ≡ key_bytes
      → export_master_key c salt nonce master (trim_trailing_newlines passphrase) ≡ ok blob
      → parse_flag args (codes "--force") ≡ ok force
      → read_store_unlock {E = E} config p ≡ (p₁, ok unlock)
      → Waits p₁ (lead ++ (print ws (object ms) ++ trail))
      → all is_json_ws ws ≡ true
      → all is_json_ws lead ≡ true
      → AreMembers ms
      → KeysFit ms
      → lookup (codes "passphrase") ms ≡ some (string ps)
      → length (meanings ps) ≤ max_stdin_secret_bytes
      → trim_trailing_newlines (meanings ps) ≡ trim_trailing_newlines passphrase
      → lookup (codes "blob") ms ≡ some v
      → parse (print ws v) ≡ some blob
      → (left : List Commands.ReadEvent) × (key_import_cmd c m parse args config p
          ≡ attempt
              (on_store (import_master_with_unlock m unlock master force))
              (or_raise (λ _. done (ok done_ok)))
              (record p₁ { stdin = left }))
  unfolding key_import_cmd import_blob_from_json
  key_import_cmd-exported parse args force config unlock p p₁ blob ws lead trail ms ps v nonce_len
        key_len made f u w s l hm fit fp size same fb read =
      let text = lead ++ (print ws (object ms) ++ trail) in
      let (left, r) = read_stdin-Waits {E = E} p₁ text w in
      let (phrase, slice) = key_import-print ws lead trail ms s l hm fit in
      let fits : leb (length (meanings ps)) max_stdin_secret_bytes ≡ true = ground arith in
      (
        left,
        rw
            (
              f,
              u,
              r,
              phrase,
              fp,
              fits,
              slice,
              fb,
              read,
              same,
              import-export c laws salt nonce master (trim_trailing_newlines passphrase) nonce_len
                  key_len made,
            )
            refl,
      )

  -- Where a key export printed a blob for the key of its store, a key import that reads the text
  -- of an object with the passphrase and the text of that blob, as serde_json reads it, imports
  -- just that key into its own store, with the force that was asked for and with the outcome of
  -- the store, if both passphrases agree but for newlines at their ends, inputs and keys are
  -- within the limits, standard input does not fail, and key and nonce have their lengths.
  pub key_import_cmd-key_export_cmd :
      (config₀ : StoreSelection) (unlock₀ : StoreUnlock) (q q₁ : Process S) (loaded : S)
      (parse : Bytes → Option ExportBlob) (args : List Bytes) (force : Bool)
      (config : StoreSelection) (unlock : StoreUnlock) (p p₁ : Process S) (blob : ExportBlob)
      (ws lead trail : Bytes) (ms : Members) (ps : List Piece) (v : Json)
      → length nonce ≡ nonce_bytes
      → length master ≡ key_bytes
      → read_store_unlock {E = E} config₀ q ≡ (q₁, ok unlock₀)
      → Waits q₁ passphrase
      → load_existing_master_from_unlock m unlock₀ q₁.store ≡ (loaded, ok master)
      → (key_export_cmd c m salt nonce config₀ q).1 ≡ ok (exported blob)
      → parse_flag args (codes "--force") ≡ ok force
      → read_store_unlock {E = E} config p ≡ (p₁, ok unlock)
      → Waits p₁ (lead ++ (print ws (object ms) ++ trail))
      → all is_json_ws ws ≡ true
      → all is_json_ws lead ≡ true
      → AreMembers ms
      → KeysFit ms
      → lookup (codes "passphrase") ms ≡ some (string ps)
      → length (meanings ps) ≤ max_stdin_secret_bytes
      → trim_trailing_newlines (meanings ps) ≡ trim_trailing_newlines passphrase
      → lookup (codes "blob") ms ≡ some v
      → parse (print ws v) ≡ some blob
      → (left : List Commands.ReadEvent) × (key_import_cmd c m parse args config p
          ≡ attempt
              (on_store (import_master_with_unlock m unlock master force))
              (or_raise (λ _. done (ok done_ok)))
              (record p₁ { stdin = left }))
  key_import_cmd-key_export_cmd config₀ unlock₀ q q₁ loaded parse args force config unlock p p₁ blob
        ws lead trail ms ps v nonce_len key_len u₀ w₀ l₀ h =
      key_import_cmd-exported parse args force config unlock p p₁ blob ws lead trail ms ps v
        nonce_len key_len (key_export_cmd-exported config₀ unlock₀ q q₁ loaded u₀ w₀ l₀ h)
