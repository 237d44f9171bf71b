-- ===== src/Redact/Secrecy.antt =====
-- After redaction by needles that share no byte with the redaction text, no needle is left.
use avault.Prelude.{
  ℕ, zero, suc, ◌≡◌, refl, sym, ◌∙◌, ◌≢◌, true, false, not, List, [], ◌∷◌, ◌++◌, arith, length,
  drop, all, All,
}
use avault.Prelude.Bytes.{Bytes, starts_with, contains_byte}
use avault.Prelude.Result.{ok, bind-eq-ok}
use avault.Redact.{fetch_redaction, redact_verbatim_bytes, redact_fetch_body}
use avault.Redact.Spec.{Redacts, done, hit, IsFree, FreeBefore}
use avault.Redact.Replace.{verdict, redact_verbatim_bytes_lem}

-- The needle holds none of the bytes `rs`.
abbrev pub Avoids : Bytes → Bytes → Type 0
Avoids needle rs = all (λ r. not (contains_byte needle r)) rs ≡ true

-- A needle that shares no byte with the redaction text.
abbrev pub IsForeign : Bytes → Type 0
IsForeign needle = Avoids needle fetch_redaction

-- Where a needle without the byte `r` stands, it ends before the next `r`.
starts_with-before :
    (xs : Bytes) (r : ℕ) (ys needle : Bytes)
    → contains_byte needle r ≡ false
    → starts_with (xs ++ r ∷ ys) needle ≡ true
    → starts_with xs needle ≡ true
unfolding starts_with
starts_with-before xs r ys [] f h = ground arith
starts_with-before [] r ys (n ∷ needle) f h = ground arith
starts_with-before (x ∷ xs) r ys (n ∷ needle) f h =
    ground (arith, starts_with-before xs r ys needle)

starts_with-append_right :
    (xs ys needle : Bytes) → starts_with xs needle ≡ true → starts_with (xs ++ ys) needle ≡ true
unfolding starts_with
starts_with-append_right xs ys [] h = refl
starts_with-append_right [] ys (n ∷ needle) h = cc
starts_with-append_right (x ∷ xs) ys (n ∷ needle) h =
    ground (arith, starts_with-append_right xs ys needle)

module _ (n : ℕ) (needle : Bytes) where
  IsFree-between :
      (xs : Bytes) (r : ℕ) (ys : Bytes)
      → contains_byte (n ∷ needle) r ≡ false
      → IsFree (n ∷ needle) xs
      → IsFree (n ∷ needle) ys
      → IsFree (n ∷ needle) (xs ++ r ∷ ys)
  unfolding starts_with
  IsFree-between [] r ys f a b zero = ground arith
  IsFree-between [] r ys f a b (suc i) = b i
  IsFree-between (x ∷ xs) r ys f a b zero =
      ground (arith, a 0, starts_with-before (x ∷ xs) r ys (n ∷ needle) f)
  IsFree-between (x ∷ xs) r ys f a b (suc i) = IsFree-between xs r ys f (λ j. a (suc j)) b i

  IsFree-nil : IsFree (n ∷ needle) []
  unfolding starts_with
  IsFree-nil zero = refl
  IsFree-nil (suc i) = refl

  IsFree-append :
      (rs ys : Bytes)
      → Avoids (n ∷ needle) rs
      → IsFree (n ∷ needle) ys
      → IsFree (n ∷ needle) (rs ++ ys)
  IsFree-append [] ys f b = b
  IsFree-append (r ∷ rs) ys f b =
      IsFree-between [] r (rs ++ ys) (ground arith) IsFree-nil
        (IsFree-append rs ys (ground arith) b)

  IsFree-around :
      (xs : Bytes) (r : ℕ) (rs ys : Bytes)
      → Avoids (n ∷ needle) (r ∷ rs)
      → IsFree (n ∷ needle) xs
      → IsFree (n ∷ needle) ys
      → IsFree (n ∷ needle) (xs ++ (r ∷ (rs ++ ys)))
  IsFree-around xs r rs ys f a b =
      IsFree-between xs r (rs ++ ys) (ground arith) a (IsFree-append rs ys (ground arith) b)

  FreeBefore-IsFree :
      (xs ys : Bytes) → FreeBefore (length xs) (n ∷ needle) (xs ++ ys) → IsFree (n ∷ needle) xs
  FreeBefore-IsFree [] ys f i = IsFree-nil i
  FreeBefore-IsFree (x ∷ xs) ys f zero =
      ground (arith, f 0 (omega arith), starts_with-append_right (x ∷ xs) ys (n ∷ needle))
  FreeBefore-IsFree (x ∷ xs) ys f (suc i) =
      FreeBefore-IsFree xs ys (λ j h. f (suc j) (omega arith)) i

  IsFree-append_right : (xs ys : Bytes) → IsFree (n ∷ needle) (xs ++ ys) → IsFree (n ∷ needle) ys
  IsFree-append_right [] ys f = f
  IsFree-append_right (x ∷ xs) ys f = IsFree-append_right xs ys (λ i. f (suc i))

  Redacts-IsFree :
      {k : ℕ} {body out : Bytes}
      → IsForeign (n ∷ needle)
      → Redacts (n ∷ needle) k body out
      → IsFree (n ∷ needle) out
  Redacts-IsFree f (done free) = free
  Redacts-IsFree f (hit {body = b} before rest redacted splits first tail e) = rw e (
      IsFree-around before b'[' (drop 1 fetch_redaction) redacted f
        (FreeBefore-IsFree before ((n ∷ needle) ++ rest) (rw splits at first))
        (Redacts-IsFree f tail))

  -- Redaction by another needle brings none back.
  Redacts-IsFree_other :
      {other : Bytes} {k : ℕ} {body out : Bytes}
      → IsForeign (n ∷ needle)
      → IsFree (n ∷ needle) body
      → Redacts other k body out
      → IsFree (n ∷ needle) out
  Redacts-IsFree_other f a (done free) = a
  Redacts-IsFree_other {other} f a (hit before rest redacted splits first tail e) =
      let whole = rw splits at a in
      rw e (
        IsFree-around before b'[' (drop 1 fetch_redaction) redacted f
          (FreeBefore-IsFree before (other ++ rest) (λ i h. whole i))
          (Redacts-IsFree_other f
            (IsFree-append_right other rest (IsFree-append_right before (other ++ rest) whole))
            tail))

verdict-eq-ok :
    {needle : Bytes} {k : ℕ} {body out r : Bytes}
    → Redacts needle k body out
    → verdict body k out ≡ ok r
    → out ≡ r
verdict-eq-ok (done free) h = ground arith
verdict-eq-ok (hit before rest redacted splits first tail e) h = ground arith

-- Nothing is left of `needle`, if it is not empty.
abbrev pub IsGone : Bytes → Bytes → Type 0
IsGone out needle = needle ≢ [] → IsFree needle out

redact_verbatim_bytes-IsGone :
    (body needle out : Bytes)
    → IsForeign needle
    → redact_verbatim_bytes body needle ≡ ok out
    → IsGone out needle
redact_verbatim_bytes-IsGone body [] out f h ne = absurd (ne refl)
redact_verbatim_bytes-IsGone body (n ∷ needle) out f h ne =
    let (k, o, redacts, e) = redact_verbatim_bytes_lem body (n ∷ needle) ne in
    rw (← verdict-eq-ok redacts (sym e ∙ h)) (Redacts-IsFree n needle f redacts)

redact_verbatim_bytes-IsGone_other :
    (body needle other out : Bytes)
    → IsForeign needle
    → IsGone body needle
    → redact_verbatim_bytes body other ≡ ok out
    → IsGone out needle
unfolding redact_verbatim_bytes
redact_verbatim_bytes-IsGone_other body [] other out f g h ne = absurd (ne refl)
redact_verbatim_bytes-IsGone_other body (n ∷ needle) [] out f g h ne =
    let e : body ≡ out = ground arith in rw (← e) (g ne)
redact_verbatim_bytes-IsGone_other body (n ∷ needle) (o ∷ other) out f g h ne =
    let (k, r, redacts, e) = redact_verbatim_bytes_lem body (o ∷ other) (λ z. cc) in
    rw (← verdict-eq-ok redacts (sym e ∙ h)) (Redacts-IsFree_other n needle f (g ne) redacts)

redact_fetch_body-IsGone_other :
    (body : Bytes) (others : List Bytes) (needle out : Bytes)
    → IsForeign needle
    → IsGone body needle
    → redact_fetch_body body others ≡ ok out
    → IsGone out needle
unfolding redact_fetch_body
redact_fetch_body-IsGone_other body [] needle out f g h ne =
    let e : body ≡ out = ground arith in rw (← e) (g ne)
redact_fetch_body-IsGone_other body (o ∷ others) needle out f g h ne =
    let (b, first, later) =
      bind-eq-ok (redact_verbatim_bytes body o) (λ b. redact_fetch_body b others) h in
    redact_fetch_body-IsGone_other b others needle out f
      (redact_verbatim_bytes-IsGone_other body needle o b f g first) later ne

-- Where redaction of a body succeeds, no nonempty needle occurs in the result, if no needle shares
-- a byte with the redaction text.
pub redact_fetch_body-IsGone :
    (body : Bytes) (needles : List Bytes) (out : Bytes)
    → All IsForeign needles
    → redact_fetch_body body needles ≡ ok out
    → All (IsGone out) needles
unfolding redact_fetch_body
redact_fetch_body-IsGone body [] out f h = tt
redact_fetch_body-IsGone body (n ∷ needles) out (f, fs) h =
    let (b, first, later) =
      bind-eq-ok (redact_verbatim_bytes body n) (λ b. redact_fetch_body b needles) h in
    (
      redact_fetch_body-IsGone_other b needles n out f
          (redact_verbatim_bytes-IsGone body n b f first) later,
      redact_fetch_body-IsGone b needles out fs later,
    )
