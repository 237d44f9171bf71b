-- ===== src/BlindBox/Encoding.antt =====
-- The length-prefixed encoding is injective: associated data determine the list of fields.
use avault.Prelude.{
  ℕ, ◌^◌, ◌<◌, ◌≡◌, refl, sym, ap, ◌∙◌, List, [], ◌∷◌, ◌++◌, append_assoc, append-nil, arith,
  length, drop, drop-append, All,
}
use avault.Prelude.Bytes.{Bytes}
use avault.Prelude.Result.{ok, bind-eq-ok, ok-injective}
use avault.BlindBox.{
  BlindBoxContext, be_bytes, push_aad_field, push_fields, aad_fields, aad_bytes,
  blind_box_aad_domain,
}

-- What the fields become when each is short enough.
abbrev pub encoded : List Bytes → Bytes
encoded [] = []
encoded (v ∷ vs) = be_bytes 4 (length v) ++ (v ++ encoded vs)

abbrev pub Short : Bytes → Type 0
Short v = length v < 2 ^ 32

push_aad_field-eq-ok :
    (out v : Bytes) {r : Bytes}
    → push_aad_field out v ≡ ok r
    → Short v × (r ≡ out ++ (be_bytes 4 (length v) ++ v))
unfolding push_aad_field
push_aad_field-eq-ok out v h = ground arith

pub push_fields-eq-ok :
    (out : Bytes) (values : List Bytes) {r : Bytes}
    → push_fields out values ≡ ok r
    → All Short values × (r ≡ out ++ encoded values)
unfolding push_fields
push_fields-eq-ok out [] h = (tt, sym (ok-injective h) ∙ sym (append-nil out))
push_fields-eq-ok out (v ∷ vs) {r} h =
    let (out', first, later) = bind-eq-ok (push_aad_field out v) (λ o. push_fields o vs) h in
    let (short, e) = push_aad_field-eq-ok out v first in
    let (rest, q) = push_fields-eq-ok out' vs later in
    ((short, rest), q ∙ ap (λ (o : Bytes). o ++ encoded vs) e ∙ simp append_assoc)

append-cancel : (v w r s : Bytes) → length v ≡ length w → v ++ r ≡ w ++ s → (v ≡ w) × (r ≡ s)
append-cancel [] [] r s l p = (refl, p)
append-cancel [] (y ∷ w) r s l p = absurd (omega arith)
append-cancel (x ∷ v) [] r s l p = absurd (omega arith)
append-cancel (x ∷ v) (y ∷ w) r s l p = ground (arith, append-cancel v w r s)

be_bytes-injective :
    (m n : ℕ) (r s : Bytes)
    → m < 2 ^ 32
    → n < 2 ^ 32
    → be_bytes 4 m ++ r ≡ be_bytes 4 n ++ s
    → (m ≡ n) × (r ≡ s)
be_bytes-injective m n r s a b p = ground arith

pub encoded-injective :
    (vs ws : List Bytes)
    → All Short vs
    → All Short ws
    → length vs ≡ length ws
    → encoded vs ≡ encoded ws
    → vs ≡ ws
encoded-injective [] [] a b l p = refl
encoded-injective [] (w ∷ ws) a b l p = absurd (omega arith)
encoded-injective (v ∷ vs) [] a b l p = absurd (omega arith)
encoded-injective (v ∷ vs) (w ∷ ws) (a, a_s) (b, b_s) l p =
    let (len, rest) = be_bytes-injective (length v) (length w) _ _ a b p in
    let (here, there) = append-cancel v w _ _ len rest in
    cc (here, encoded-injective vs ws a_s b_s (omega arith) there)

-- Contexts with the same associated data have the same fields.
pub aad_bytes-injective :
    (a b : BlindBoxContext) {bytes : Bytes}
    → aad_bytes a ≡ ok bytes
    → aad_bytes b ≡ ok bytes
    → aad_fields a ≡ aad_fields b
unfolding aad_bytes
aad_bytes-injective a b h k =
    let (short, e) = push_fields-eq-ok blind_box_aad_domain (aad_fields a) h in
    let (short', e') = push_fields-eq-ok blind_box_aad_domain (aad_fields b) k in
    encoded-injective (aad_fields a) (aad_fields b) short short' refl (
      sym (drop-append blind_box_aad_domain (encoded (aad_fields a)))
      ∙ ap (drop (length blind_box_aad_domain)) (sym e ∙ e')
      ∙ drop-append blind_box_aad_domain (encoded (aad_fields b)))
