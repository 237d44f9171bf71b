-- ===== src/Tests/RedactRuns.antt =====
-- Redaction on concrete bodies.
use avault.Prelude.{ℕ, ◌≡◌, refl, [], ◌∷◌}
use avault.Prelude.Bytes.{Bytes, codes, starts_with}
use avault.Prelude.Result.{ok}
use avault.Redact.{
  count_matches, replace_matches, redacted_body_len, fetch_redaction, find_subslice,
  redact_verbatim_bytes, redact_fetch_body,
}
use avault.Redact.Spec.{Redacts}
use avault.Redact.Replace.{verdict, redact_verbatim_bytes_lem}
use avault.Redact.Secrecy.{IsGone, redact_fetch_body-IsGone}

abbrev body : Bytes
body = codes "x=s3cr3tP; y=s3cr3tP!"

abbrev needle : Bytes
needle = codes "s3cr3tP"

abbrev redacted : Bytes
redacted = codes "x=[avault-redacted]; y=[avault-redacted]!"

redact_body : redact_fetch_body body (needle ∷ []) ≡ ok redacted
unfolding redact_fetch_body redact_verbatim_bytes count_matches replace_matches find_subslice
    starts_with redacted_body_len
redact_body = refl

abbrev foreign : Bytes
foreign = codes "QQ11"

redact_foreign :
    redact_fetch_body (codes "k=QQ11,QQ1") (foreign ∷ []) ≡ ok (codes "k=[avault-redacted],QQ1")
unfolding redact_fetch_body redact_verbatim_bytes count_matches replace_matches find_subslice
    starts_with redacted_body_len
redact_foreign = refl

-- Letters of the redaction text may stand in a needle; then an occurrence can come back.
needle_in_redaction : redact_fetch_body (codes "a") (codes "a" ∷ []) ≡ ok fetch_redaction
unfolding redact_fetch_body redact_verbatim_bytes count_matches replace_matches find_subslice
    starts_with redacted_body_len
needle_in_redaction = refl

redact_verbatim_bytes_lem_example :
    (matches : ℕ) × (out : Bytes) × Redacts needle matches body out
    × (redact_verbatim_bytes body needle ≡ verdict body matches out)
redact_verbatim_bytes_lem_example = redact_verbatim_bytes_lem body needle (λ e. cc)

redact_fetch_body-IsGone_example : IsGone (codes "k=[avault-redacted],QQ1") foreign × Unit {0}
redact_fetch_body-IsGone_example =
    redact_fetch_body-IsGone (codes "k=QQ11,QQ1") (foreign ∷ []) (codes "k=[avault-redacted],QQ1")
      (refl, tt) redact_foreign
