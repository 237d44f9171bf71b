-- ===== src/Tests/ToyCrypto.antt =====
-- A cipher that frames the associated data before the message, to show that the laws of `Crypto`
-- can be met. It hides nothing.
use mathlib.Core.Option.{some-injective}
use avault.Prelude.{
  zero, suc, ◌≡◌, refl, ◌∙◌, inl, inr, Option, none, some, [], ◌∷◌, ◌++◌, if◌then◌else◌, Bool-cases,
  length, take, drop, drop-append, take-append,
}
use avault.Prelude.Bytes.{Bytes, eq_bytes, eq_bytes_iff}
use avault.Core.Crypto.{ProtectedRecordMeta, static, keypair, WrapMeta, Crypto, CryptoLaws}

abbrev pub frame : Bytes → Bytes → Bytes
frame xs rest = length xs ∷ (xs ++ rest)

abbrev pub unframe : Bytes → Option (Bytes × Bytes)
unframe [] = none
unframe (n ∷ rest) = some (take n rest, drop n rest)

abbrev pub checked_by : Bytes → Option (Bytes × Bytes) → Option Bytes
checked_by aad none = none
checked_by aad (some (seen, msg)) = if eq_bytes seen aad then some msg else none

abbrev pub print_record : Option ProtectedRecordMeta → Bytes
print_record none = []
print_record (some static) = 0 ∷ []
print_record (some (keypair public_key)) = 1 ∷ public_key

abbrev pub parse_record : Bytes → Option ProtectedRecordMeta
parse_record [] = none
parse_record (zero ∷ rest) = some static
parse_record (suc n ∷ rest) = some (keypair rest)

abbrev pub print_meta : WrapMeta → Bytes
print_meta m =
    m.v ∷ frame m.scheme (frame m.wrapped_dek (frame m.dek_nonce (print_record m.record_meta)))

infixl 5 ◌>>?◌
abbrev ◌>>?◌ : Option (Bytes × Bytes) → (Bytes → Bytes → Option WrapMeta) → Option WrapMeta
none >>? f = none
some (x, r) >>? f = f x r

abbrev pub parse_meta : Bytes → Option WrapMeta
parse_meta [] = none
parse_meta (v ∷ rest) = unframe rest >>? λ scheme r1. unframe r1 >>? λ wrapped_dek r2.
    unframe r2 >>? λ dek_nonce r3. some (record {
      v = v;
      scheme = scheme;
      wrapped_dek = wrapped_dek;
      dek_nonce = dek_nonce;
      record_meta = parse_record r3;
    })

parse-print_record : (r : Option ProtectedRecordMeta) → parse_record (print_record r) ≡ r
parse-print_record none = refl
parse-print_record (some static) = refl
parse-print_record (some (keypair public_key)) = refl

parse-print_meta : (m : WrapMeta) → parse_meta (print_meta m) ≡ some m
parse-print_meta m = simp (take-append, drop-append, parse-print_record)

abbrev pub toy_crypto : Crypto
toy_crypto = record {
  encrypt = λ key nonce msg aad. some (frame aad msg);
  decrypt = λ key nonce ct aad. checked_by aad (unframe ct);
  scrypt = λ passphrase salt log_n r p. some passphrase;
  base64_encode = λ raw. raw;
  base64_decode = some;
  print_wrap_meta = print_meta;
  parse_wrap_meta = parse_meta;
  json_string = λ text. text;
}

pub toy_decrypt :
    (aad msg other ct : Bytes)
    → frame aad msg ≡ ct
    → checked_by other (unframe ct) ≡ (if eq_bytes aad other then some msg else none)
toy_decrypt aad msg other ct e = rw (← e, take-append aad msg, drop-append aad msg)

pub toy_laws : CryptoLaws toy_crypto
toy_laws = record {
  decrypt-encrypt = λ key nonce msg aad {ct} h.
      toy_decrypt aad msg aad ct (some-injective _ _ h) ∙ rw ((eq_bytes_iff aad aad).1 refl);
  authentic = λ key nonce msg aad other {ct} h ne.
      toy_decrypt aad msg other ct (some-injective _ _ h) ∙ elim (Bool-cases (eq_bytes aad other)) [
        | inl e ↦ absurd (ne ((eq_bytes_iff aad other).0 e))
        | inr e ↦ rw e
      ];
  base64-decode_encode = λ raw. refl;
  parse-print = parse-print_meta;
  json_string-injective = λ a b e. e;
}
