-- ===== src/BlindBox/Contexts.antt =====
-- A blind box opens for one operation: the grant, name, approval and operation that it was sealed
-- for.
use avault.Prelude.{ℕ, ◌^◌, ◌<◌, ◌≡◌, sym, ap, ◌∙◌, inl, inr, false, not, some, arith, Bool-cases}
use avault.Prelude.Bytes.{Bytes, eq_bytes, eq_bytes_iff}
use avault.Prelude.Result.{ok, bail_if, or_fail, is_ok, Result-cases, bind-eq-ok, or_fail-eq-ok}
use mathlib.Core.Option.{some-injective}
use mathlib.Core.Path.{subst₂}
use avault.BlindBox.{
  unsupported_scheme, not_base64, enc_invalid_length, blind_box_scheme, blind_box_hpke_info,
  BlindBox, BlindBoxContext, new, with_grant_id, with_signing, with_approval, with_operation_hash,
  agent_deliver, agent_sign, be_bytes, aad_fields, aad_bytes, Hpke, HpkeLaws, open_blind_box,
}
use avault.BlindBox.Encoding.{aad_bytes-injective}

module _ (h : Hpke) (laws : HpkeLaws h) (private_key : Bytes) (blind_box : BlindBox) where
  record Opens (context : BlindBoxContext) (plaintext : Bytes) : Type 0 where
    enc : Bytes
    ct : Bytes
    aad : Bytes
    enc_read : h.base64_decode blind_box.enc ≡ some enc
    ct_read : h.base64_decode blind_box.ct ≡ some ct
    aad_is : aad_bytes context ≡ ok aad
    opens : h.single_shot_open private_key enc blind_box_hpke_info ct aad ≡ some plaintext

  open_blind_box-Opens :
      (context : BlindBoxContext) {plaintext : Bytes}
      → open_blind_box h private_key blind_box context ≡ ok plaintext
      → Opens context plaintext
  unfolding open_blind_box
  open_blind_box-Opens context e =
      let (u, s, e1) =
        bind-eq-ok (bail_if (not (eq_bytes blind_box.scheme blind_box_scheme)) unsupported_scheme) _
          e in
      let (enc, n, e2) = bind-eq-ok (or_fail (h.base64_decode blind_box.enc) not_base64) _ e1 in
      let (ct, t, e3) = bind-eq-ok (or_fail (h.base64_decode blind_box.ct) not_base64) _ e2 in
      let (u', k, e4) =
        bind-eq-ok (bail_if (not (h.is_encapped_key enc)) enc_invalid_length) _ e3 in
      let (aad, a, e5) = bind-eq-ok (aad_bytes context) _ e4 in
      record {
        enc = enc;
        ct = ct;
        aad = aad;
        enc_read = or_fail-eq-ok _ _ n;
        ct_read = or_fail-eq-ok _ _ t;
        aad_is = a;
        opens = or_fail-eq-ok _ _ e5;
      }

  same_plain :
      (enc ct aad aad' : Bytes) {p q : Bytes}
      → h.single_shot_open private_key enc blind_box_hpke_info ct aad ≡ some p
      → h.single_shot_open private_key enc blind_box_hpke_info ct aad' ≡ some q
      → aad ≡ aad'
  same_plain enc ct aad aad' e f = elim (Bool-cases (eq_bytes aad aad')) [
    | inl same ↦ (eq_bytes_iff aad aad').0 same
    | inr differ ↦
        let fails =
          laws.authentic private_key enc blind_box_hpke_info ct aad aad' e
            (λ p. absurd (ground (arith, (eq_bytes_iff aad aad').1 p))) in
        absurd (ground (arith, fails))
  ]

  same_aad :
      (a b : BlindBoxContext) {p q : Bytes} → Opens a p → Opens b q → aad_fields a ≡ aad_fields b
  same_aad a b {p} {q} x y =
      let enc : x.enc ≡ y.enc = some-injective _ _ (sym x.enc_read ∙ y.enc_read) in
      let ct : x.ct ≡ y.ct = some-injective _ _ (sym x.ct_read ∙ y.ct_read) in
      let opens : h.single_shot_open private_key x.enc blind_box_hpke_info x.ct y.aad ≡ some q =
        subst₂ (λ e t. h.single_shot_open private_key e blind_box_hpke_info t y.aad ≡ some q)
          (sym enc) (sym ct) y.opens in
      aad_bytes-injective a b x.aad_is
        (y.aad_is ∙ ap ok (sym (same_plain x.enc x.ct x.aad y.aad x.opens opens)))

  -- Contexts for which one blind box opens agree on every field of the associated data.
  pub open_blind_box-same_fields :
      (a b : BlindBoxContext) {p q : Bytes}
      → open_blind_box h private_key blind_box a ≡ ok p
      → open_blind_box h private_key blind_box b ≡ ok q
      → aad_fields a ≡ aad_fields b
  open_blind_box-same_fields a b e f =
      same_aad a b (open_blind_box-Opens a e) (open_blind_box-Opens b f)

be_bytes_8-injective : (m n : ℕ) → m < 2 ^ 64 → n < 2 ^ 64 → be_bytes 8 m ≡ be_bytes 8 n → m ≡ n
be_bytes_8-injective m n a b p = ground arith

-- The context of a delivery grant, as the agent builds it.
abbrev pub deliver_context : Bytes → Bytes → Bytes → ℕ → Bytes → BlindBoxContext
deliver_context grant_id name nonce expires_at_unix hash =
    with_operation_hash (with_approval (agent_deliver grant_id name) nonce expires_at_unix) hash

abbrev pub sign_context : Bytes → Bytes → Bytes → Bytes → Bytes → ℕ → Bytes → BlindBoxContext
sign_context grant_id name scheme digest nonce expires_at_unix hash =
    with_operation_hash
      (with_approval (agent_sign grant_id name scheme digest) nonce expires_at_unix) hash

-- A blind box that opens for two signing approvals serves one: grant, name, scheme, digest, nonce,
-- expiry and operation hash agree, if expiries fit 64 bits and HPKE authenticates associated data.
pub open_blind_box-sign_context :
    (h : Hpke) (laws : HpkeLaws h) (private_key : Bytes) (blind_box : BlindBox)
    (grant_id name scheme digest nonce hash grant_id' name' scheme' digest' nonce' hash' : Bytes)
    (expires expires' : ℕ) {p q : Bytes}
    → expires < 2 ^ 64
    → expires' < 2 ^ 64
    → open_blind_box h private_key blind_box
        (sign_context grant_id name scheme digest nonce expires hash)
      ≡ ok p
    → open_blind_box h private_key blind_box
        (sign_context grant_id' name' scheme' digest' nonce' expires' hash')
      ≡ ok q
    → (grant_id ≡ grant_id')
      × (name ≡ name')
      × (scheme ≡ scheme')
      × (digest ≡ digest')
      × (nonce ≡ nonce')
      × (expires ≡ expires')
      × (hash ≡ hash')
unfolding agent_sign with_approval with_operation_hash new with_grant_id with_signing
open_blind_box-sign_context h laws private_key blind_box grant_id name scheme digest nonce hash
      grant_id' name' scheme' digest' nonce' hash' expires expires' a b e f =
    let same =
      open_blind_box-same_fields h laws private_key blind_box
        (sign_context grant_id name scheme digest nonce expires hash)
        (sign_context grant_id' name' scheme' digest' nonce' expires' hash') e f in
    (cc, cc, cc, cc, cc, be_bytes_8-injective expires expires' a b (cc), cc)

-- A blind box that opens for a delivery does not open for any signing approval, if HPKE
-- authenticates associated data.
pub open_blind_box-purpose :
    (h : Hpke) (laws : HpkeLaws h) (private_key : Bytes) (blind_box : BlindBox)
    (grant_id name nonce hash grant_id' name' scheme digest nonce' hash' : Bytes)
    (expires expires' : ℕ) {p : Bytes}
    → open_blind_box h private_key blind_box (deliver_context grant_id name nonce expires hash)
      ≡ ok p
    → is_ok (
        open_blind_box h private_key blind_box
          (sign_context grant_id' name' scheme digest nonce' expires' hash'))
      ≡ false
unfolding agent_deliver agent_sign with_approval with_operation_hash new with_grant_id with_signing
open_blind_box-purpose h laws private_key blind_box grant_id name nonce hash grant_id' name' scheme
      digest nonce' hash' expires expires' e =
    elim (Result-cases (
      open_blind_box h private_key blind_box
        (sign_context grant_id' name' scheme digest nonce' expires' hash'))) [
          | inl (q, f) ↦
              let same =
                open_blind_box-same_fields h laws private_key blind_box
                  (deliver_context grant_id name nonce expires hash)
                  (sign_context grant_id' name' scheme digest nonce' expires' hash') e f in
              cc
          | inr (x, f) ↦ rw f
        ]
