-- ===== src/Core/Protected.antt =====
-- Protected-tier envelopes: `open_with_dek`, `open_protected_value_with_dek` and
-- `protected_record_aad`.
use avault.Prelude.{
  ℕ, ◌+◌, ◌/◌, ◌%◌, ◌≡◌, refl, sym, ap, ◌∙◌, ◌≢◌, Option, none, some, [], ◌∷◌, ◌++◌, append_assoc,
  arith, ltb, if◌then◌else◌, ==_iff, length, drop, length-append, drop-append,
}
use avault.Prelude.Bytes.{Bytes, codes, eq_bytes_iff, to_ascii_lowercase}
use avault.Prelude.Result.{Result, ok, err, ◌>>=◌}
use avault.Core.Crypto.{
  wrap_scheme, wrap_meta_version, nonce_bytes, Sealed, ProtectedRecordMeta, static, keypair,
  WrapMeta, CoreError, value_decrypt_failed, Crypto, CryptoLaws, b64, unb64, decode_nonce,
  decode_nonce-b64,
}
use avault.Core.Envelope.{aad, or_retry, read_wrap_meta}
use avault.Core.Open.{append-injective}

-- `format!` of a `u8`.
unfoldable pub show_u8 : ℕ → Bytes
show_u8 n =
    if ltb n 10
    then (b'0' + n) ∷ []
    else if ltb n 100
    then (b'0' + n / 10) ∷ (b'0' + n % 10) ∷ []
    else (b'0' + n / 100) ∷ (b'0' + n / 10 % 10) ∷ (b'0' + n % 10) ∷ []

module _ (c : Crypto) where
  show_record : Option ProtectedRecordMeta → Bytes
  show_record (some static) = codes "{\"kind\":\"static\"}"
  show_record (some (keypair public_key)) =
      codes "{\"kind\":\"keypair\",\"public_key\":"
      ++ (c.json_string (to_ascii_lowercase public_key) ++ codes "}")
  show_record none = codes "null"

  -- What follows the name.
  aad_tail : WrapMeta → Bytes
  unfolding show_record show_u8
  aad_tail meta =
      codes ",\"record\":"
      ++ (show_record meta.record_meta
          ++ (codes ",\"scheme\":"
              ++ (c.json_string meta.scheme
                  ++ (codes ",\"version\":" ++ (show_u8 meta.v ++ codes "}")))))

  unfoldable pub protected_record_aad : Bytes → WrapMeta → Bytes
  unfolding aad_tail
  protected_record_aad name meta =
      codes "{\"domain\":\"avault:protected-record:aad:v2\",\"name\":"
      ++ (c.json_string name ++ aad_tail meta)

  unfoldable pub open_protected_value_with_dek :
      Bytes → Bytes → Sealed → WrapMeta → Result CoreError Bytes
  open_protected_value_with_dek dek name sealed meta = do
    value_nonce ← decode_nonce c sealed.nonce
    ciphertext ← unb64 c sealed.ciphertext
    or_retry c (c.decrypt dek value_nonce ciphertext (protected_record_aad name meta))
        (c.decrypt dek value_nonce ciphertext (aad name))

  unfoldable pub open_with_dek : Bytes → Bytes → Sealed → Result CoreError Bytes
  open_with_dek dek name sealed = do
    meta ← read_wrap_meta c sealed
    open_protected_value_with_dek dek name sealed meta

-- The text ends with the byte `b`.
abbrev Ends : ℕ → Bytes → Type 0
Ends b xs = (ys : Bytes) × (xs ≡ ys ++ b ∷ [])

Ends-append : (b : ℕ) (xs ys : Bytes) → Ends b ys → Ends b (xs ++ ys)
Ends-append b xs ys (zs, e) = (xs ++ zs, rw (e, append_assoc))

Ends-unique : (a b : ℕ) (xs ys : Bytes) → xs ++ a ∷ [] ≡ ys ++ b ∷ [] → a ≡ b
Ends-unique a b [] [] p = ground arith
Ends-unique a b [] (y ∷ ys) p = absurd (omega (arith, ap length p, length-append ys (b ∷ [])))
Ends-unique a b (x ∷ xs) [] p = absurd (omega (arith, ap length p, length-append xs (a ∷ [])))
Ends-unique a b (x ∷ xs) (y ∷ ys) p = ground (arith, Ends-unique a b xs ys)

aad-Ends : (name : Bytes) → Ends 1 (aad name)
unfolding aad
aad-Ends name = Ends-append 1 name _ (wrap_scheme, refl)

aad_tail-Ends : (c : Crypto) (meta : WrapMeta) → Ends b'}' (aad_tail c meta)
unfolding aad_tail
aad_tail-Ends c meta =
    let version = Ends-append b'}' (show_u8 meta.v) (codes "}") ([], refl) in
    let scheme =
      Ends-append b'}' (c.json_string meta.scheme)
        (codes ",\"version\":" ++ (show_u8 meta.v ++ codes "}"))
        (Ends-append b'}' (codes ",\"version\":") _ version) in
    Ends-append b'}' (codes ",\"record\":") _ (
      Ends-append b'}' (show_record c meta.record_meta) _
        (Ends-append b'}' (codes ",\"scheme\":") _ scheme))

protected_record_aad-Ends :
    (c : Crypto) (name : Bytes) (meta : WrapMeta) → Ends b'}' (protected_record_aad c name meta)
unfolding protected_record_aad
protected_record_aad-Ends c name meta =
    Ends-append b'}' (codes "{\"domain\":\"avault:protected-record:aad:v2\",\"name\":")
      (c.json_string name ++ aad_tail c meta)
      (Ends-append b'}' (c.json_string name) (aad_tail c meta) (aad_tail-Ends c meta))

-- The two kinds of associated data never coincide.
pub protected_record_aad-ne-aad :
    (c : Crypto) (name other : Bytes) (meta : WrapMeta)
    → protected_record_aad c name meta ≢ aad other
protected_record_aad-ne-aad c name other meta p =
    let (xs, d) = protected_record_aad-Ends c name meta in
    let (ys, e) = aad-Ends other in absurd (omega (arith, Ends-unique b'}' 1 xs ys (sym d ∙ p ∙ e)))

drop_cancel : (xs ys zs : Bytes) → xs ++ ys ≡ xs ++ zs → ys ≡ zs
drop_cancel xs ys zs p = sym (drop-append xs ys) ∙ ap (drop (length xs)) p ∙ drop-append xs zs

pub protected_record_aad-injective :
    (c : Crypto) (laws : CryptoLaws c) (name other : Bytes) (meta : WrapMeta)
    → protected_record_aad c name meta ≡ protected_record_aad c other meta
    → name ≡ other
unfolding protected_record_aad
protected_record_aad-injective c laws name other meta p = laws.json_string-injective name other (
    append-injective (c.json_string name) (c.json_string other) (aad_tail c meta)
      (drop_cancel (codes "{\"domain\":\"avault:protected-record:aad:v2\",\"name\":") _ _ p))

module _ (c : Crypto) (laws : CryptoLaws c) (dek value_nonce name value ciphertext : Bytes)
    (meta : WrapMeta) (scheme_is : meta.scheme ≡ wrap_scheme)
    (version_is : meta.v ≡ wrap_meta_version) (value_nonce_len : length value_nonce ≡ nonce_bytes)
    (encrypted : c.encrypt dek value_nonce value (protected_record_aad c name meta)
      ≡ some ciphertext) where
  -- The envelope that the browser writes for a protected record.
  abbrev pub browser_envelope : Sealed
  browser_envelope = record {
    ciphertext = b64 c ciphertext;
    nonce = b64 c value_nonce;
    wrap_meta = c.print_wrap_meta meta;
  }

  open_with_dek-decrypts :
      (other : Bytes)
      → open_with_dek c dek other browser_envelope
        ≡ or_retry c
            (c.decrypt dek value_nonce ciphertext (protected_record_aad c other meta))
            (c.decrypt dek value_nonce ciphertext (aad other))
  unfolding open_with_dek open_protected_value_with_dek
  open_with_dek-decrypts other = rw (
    laws.parse-print meta,
    (eq_bytes_iff meta.scheme wrap_scheme).1 scheme_is,
    (==_iff meta.v wrap_meta_version).1 version_is,
    decode_nonce-b64 c laws value_nonce value_nonce_len,
    laws.base64-decode_encode ciphertext,
  )

  -- A protected envelope, whose metadata carry the scheme and the version of the program and whose
  -- nonce has the length of a nonce, encrypted under the record data of its name and metadata,
  -- opens with its data key under its name and fails under every other name.
  pub open_with_dek-browser_envelope :
      (other : Bytes)
      → name ≢ other
      → (open_with_dek c dek name browser_envelope ≡ ok value)
        × (open_with_dek c dek other browser_envelope ≡ err value_decrypt_failed)
  open_with_dek-browser_envelope other ne = (
    rw (open_with_dek-decrypts name, laws.decrypt-encrypt dek value_nonce value _ encrypted),
    rw (
      open_with_dek-decrypts other,
      laws.authentic dek value_nonce value _ (protected_record_aad c other meta) encrypted
          (λ p. ne (protected_record_aad-injective c laws name other meta p)),
      laws.authentic dek value_nonce value _ (aad other) encrypted
          (protected_record_aad-ne-aad c name other meta),
    ),
  )
