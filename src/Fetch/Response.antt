-- ===== src/Fetch/Response.antt =====
-- The credential does not come back in the response.
use avault.Prelude.{
  ℕ, ◌+◌, ◌/◌, ◌%◌, ◌<◌, ◌≡◌, refl, ap, ◌≢◌, inl, inr, Bool, true, false, not, ◌||◌, Option, some,
  List, [], ◌∷◌, ◌++◌, arith, ltb, ◌==◌, Bool-cases, Option-cases, length, take, all, All,
}
use avault.Prelude.Bytes.{
  Bytes, eq_bytes, eq_bytes_iff, contains_byte, is_lower, to_ascii_uppercase,
}
use avault.Prelude.Result.{
  Result, ok, err, ◌>>=◌, guard, bail_if, or_fail, map_err, bind-eq-ok, ok-injective,
}
use avault.Prelude.Maps.{Map, empty, insert, bytes_eq}
use avault.Inject.{is_utf8}
use avault.Query.{hex_digit, query_byte, push_query_encoded}
use avault.Redact.{fetch_redaction, find_subslice, max_fetch_body_bytes, redact_fetch_body}
use avault.Redact.Spec.{IsFree, find_subslice-none}
use avault.Redact.Secrecy.{Avoids, IsForeign, IsGone, redact_fetch_body-IsGone}
use avault.Fetch.Execute.{
  ExecuteError, not_ascii, control_byte, credential_not_utf8, query_credential, query_url,
  transport, body_failed, body_too_large, header_not_utf8, body_not_utf8, redaction, strip_line_end,
  is_http_control_byte, fetch_header_credential_bytes, needles_of, query_needles, Prepared,
  with_header, prepare_fetch, Response, HttpClient, FetchOutput, occurs, redact_fetch_header_text,
  read_capped_fetch_body, header_entry, response_headers, added, perform_fetch,
  execute_fetch_request,
}
use avault.Fetch.Execute

map_err-eq-ok {ℓ κ μ} :
    {E : Type κ} {F : Type μ} {A : Type ℓ} (f : E → F) (r : Result E A) {a : A}
    → map_err f r ≡ ok a
    → r ≡ ok a
map_err-eq-ok f (ok b) h = ap ok (ok-injective h)
map_err-eq-ok f (err e) h = cc

occurs-none :
    (value needle : Bytes) → needle ≢ [] → occurs value needle ≡ false → IsFree needle value
occurs-none value [] ne h = absurd (ne refl)
occurs-none value (n ∷ needle) ne h = elim (Option-cases (find_subslice value (n ∷ needle))) [
  | inl e ↦ find_subslice-none value n needle e
  | inr (i, e) ↦ let bad : true ≡ false = rw e at h in cc
]

none_occurs :
    (value : Bytes) (needles : List Bytes)
    → all (λ needle. Execute.is_nil needle || not (occurs value needle)) needles ≡ true
    → All (IsGone value) needles
none_occurs value [] h = tt
none_occurs value ([] ∷ needles) h = (λ ne. absurd (ne refl), none_occurs value needles h)
none_occurs value ((n ∷ needle) ∷ needles) h = (
  λ ne. occurs-none value (n ∷ needle) ne (ground arith),
  none_occurs value needles (ground arith),
)

redact_fetch_header_text-IsGone :
    (value : Bytes) (needles : List Bytes) (out : Bytes)
    → All IsForeign needles
    → redact_fetch_header_text value needles ≡ ok out
    → All (IsGone out) needles
unfolding redact_fetch_header_text
redact_fetch_header_text-IsGone value needles out f h =
    let test = all (λ needle. Execute.is_nil needle || not (occurs value needle)) needles in
    elim (Bool-cases test) [
      | inl e ↦
          let same : value ≡ out = ok-injective (rw e at h) in
          rw (← same) (none_occurs value needles e)
      | inr e ↦
          let (bytes, r, h₁) =
            bind-eq-ok (map_err redaction (redact_fetch_body value needles)) _ (rw e at h) in
          let (_, _, h₂) = bind-eq-ok (guard (is_utf8 bytes) header_not_utf8) _ h₁ in
          rw (← ok-injective h₂) (
            redact_fetch_body-IsGone value needles bytes f
              (map_err-eq-ok redaction (redact_fetch_body value needles) r))
    ]

read_capped_fetch_body-IsGone :
    (response : Response) (needles : List Bytes) (out : Bytes)
    → All IsForeign needles
    → read_capped_fetch_body response needles ≡ ok out
    → All (IsGone out) needles
unfolding read_capped_fetch_body
read_capped_fetch_body-IsGone response needles out f h =
    let (stream, _, h₁) = bind-eq-ok (or_fail response.reader body_failed) _ h in
    let body = take (max_fetch_body_bytes + 1) stream in
    let (_, _, h₂) =
      bind-eq-ok (bail_if (ltb max_fetch_body_bytes (length body)) body_too_large) _ h₁ in
    let (redacted, r, h₃) = bind-eq-ok (map_err redaction (redact_fetch_body body needles)) _ h₂ in
    let (_, _, h₄) = bind-eq-ok (guard (is_utf8 redacted) body_not_utf8) _ h₃ in
    rw (← ok-injective h₄) (
      redact_fetch_body-IsGone body needles redacted f
        (map_err-eq-ok redaction (redact_fetch_body body needles) r))

-- No entry has one of the needles in its name or its value.
abbrev pub HeadersGone : Map Bytes Bytes → List Bytes → Type 0
HeadersGone headers needles =
    (name value : Bytes)
    → headers name ≡ some value
    → All (IsGone name) needles × All (IsGone value) needles

insert-HeadersGone :
    (headers : Map Bytes Bytes) (name value : Bytes) (needles : List Bytes)
    → HeadersGone headers needles
    → All (IsGone name) needles
    → All (IsGone value) needles
    → HeadersGone (insert name value headers) needles
insert-HeadersGone headers name value needles h n v name' value' e =
    elim (Bool-cases (eq_bytes name name')) [
      | inl q ↦
          let same = (eq_bytes_iff name name').0 q in
          let found : some value ≡ some value' = rw q at e in
          let value_same : value ≡ value' = cc in (rw same at n, rw value_same at v)
      | inr q ↦ h name' value' (rw q at e)
    ]

response_headers-HeadersGone :
    (response : Response) (needles names : List Bytes) (headers out : Map Bytes Bytes)
    → All IsForeign needles
    → HeadersGone headers needles
    → response_headers response needles names headers ≡ ok out
    → HeadersGone out needles
unfolding response_headers header_entry
response_headers-HeadersGone response needles [] headers out f g h = rw (← ok-injective h) g
response_headers-HeadersGone response needles (name ∷ names) headers out f g h =
    elim (Option-cases (response.header name)) [
      | inl e ↦
          response_headers-HeadersGone response needles names headers out f g
            (rw (e, response_headers) at h)
      | inr (value, e) ↦
          let h' : (header_entry name value needles >>= λ entry.
          response_headers response needles names (insert entry.0 entry.1 headers))
              ≡ ok out =
            rw (e, response_headers) at h in
          let ((name', value'), r, h₁) = bind-eq-ok (header_entry name value needles) _ h' in
          let (n, rn, h₂) = bind-eq-ok (redact_fetch_header_text name needles) _ r in
          let (v, rv, h₃) = bind-eq-ok (redact_fetch_header_text value needles) _ h₂ in
          let same = ok-injective h₃ in
          let gone_name = redact_fetch_header_text-IsGone name needles n f rn in
          let gone_value = redact_fetch_header_text-IsGone value needles v f rv in
          let same_name : n ≡ name' = ap (λ p. p.0) same in
          let same_value : v ≡ value' = ap (λ p. p.1) same in
          response_headers-HeadersGone response needles names (insert name' value' headers) out f
            (insert-HeadersGone headers name' value' needles g (rw same_name at gone_name)
              (rw same_value at gone_value))
            h₁
    ]

-- Bytes that stand for themselves in the redaction text, and in no escape of a query.
abbrev is_text_byte : ℕ → Bool
is_text_byte r = is_lower r || r == b'-' || r == b'[' || r == b']'

Avoids-of :
    (xs ys rs : Bytes)
    → ((r : ℕ) → is_text_byte r ≡ true → contains_byte xs r ≡ false → contains_byte ys r ≡ false)
    → all is_text_byte rs ≡ true
    → Avoids xs rs
    → Avoids ys rs
Avoids-of xs ys [] f t h = refl
Avoids-of xs ys (r ∷ rs) f t h = ground (arith, f r, Avoids-of xs ys rs f)

contains-strip :
    (xs : Bytes) (r : ℕ) → contains_byte xs r ≡ false → contains_byte (strip_line_end xs) r ≡ false
unfolding strip_line_end
contains-strip [] r h = refl
contains-strip (b ∷ []) r h = ground arith
contains-strip (b ∷ c ∷ xs) r h = ground (arith, contains-strip (c ∷ xs) r)

contains-append :
    (xs ys : Bytes) (r : ℕ)
    → contains_byte xs r ≡ false
    → contains_byte ys r ≡ false
    → contains_byte (xs ++ ys) r ≡ false
contains-append [] ys r h k = k
contains-append (x ∷ xs) ys r h k = ground (arith, contains-append xs ys r)

hex_digit-not_text : (n r : ℕ) → n < 16 → is_text_byte r ≡ true → (hex_digit n == r) ≡ false
hex_digit-not_text n r h t = ground arith

contains-query_byte :
    (c r : ℕ)
    → c < 256
    → is_text_byte r ≡ true
    → (c == r) ≡ false
    → contains_byte (query_byte c) r ≡ false
contains-query_byte c r h t e = ground (
  arith,
  hex_digit-not_text (c / 16) r (omega arith) t,
  hex_digit-not_text (c % 16) r (omega arith) t,
)

contains-push_query_encoded :
    (xs : Bytes) (r : ℕ)
    → All (λ c. c < 256) xs
    → is_text_byte r ≡ true
    → contains_byte xs r ≡ false
    → contains_byte (push_query_encoded xs) r ≡ false
unfolding push_query_encoded
contains-push_query_encoded [] r b t h = refl
contains-push_query_encoded (c ∷ xs) r (b, bs) t h =
    contains-append (query_byte c) (push_query_encoded xs) r
      (contains-query_byte c r b t (ground arith))
      (contains-push_query_encoded xs r bs t (ground arith))

pub strip-IsForeign : (secret : Bytes) → IsForeign secret → IsForeign (strip_line_end secret)
strip-IsForeign secret f =
    Avoids-of secret (strip_line_end secret) fetch_redaction (λ r t. contains-strip secret r) refl f

pub encoded-IsForeign :
    (secret : Bytes)
    → All (λ c. c < 256) secret
    → IsForeign secret
    → IsForeign (push_query_encoded secret)
encoded-IsForeign secret b f =
    Avoids-of secret (push_query_encoded secret) fetch_redaction
      (λ r. contains-push_query_encoded secret r b) refl f

pub perform_fetch-IsGone :
    (client : HttpClient) (method : Bytes) (prepared : Prepared) (headers : List (Bytes × Bytes))
    (body : Option Bytes) (is_loopback : Bool) (output : FetchOutput)
    → All IsForeign prepared.needles
    → perform_fetch client method prepared headers body is_loopback ≡ ok output
    → All (IsGone output.body) prepared.needles × HeadersGone output.headers prepared.needles
unfolding perform_fetch
perform_fetch-IsGone client method prepared headers body is_loopback output f h =
    let (response, _, h₁) =
      bind-eq-ok
        (or_fail
          (client (to_ascii_uppercase method) prepared.target_url
            (added prepared.secret_header headers) body (not is_loopback))
          transport)
        _ h in
    let (found, r, h₂) =
      bind-eq-ok (response_headers response prepared.needles response.headers_names empty) _ h₁ in
    let (text, s, h₃) = bind-eq-ok (read_capped_fetch_body response prepared.needles) _ h₂ in
    let same = ok-injective h₃ in
    let body_gone = read_capped_fetch_body-IsGone response prepared.needles text f s in
    let headers_gone =
      response_headers-HeadersGone response prepared.needles response.headers_names empty found f
        (λ n v e. absurd (no_entry n v e)) r in
    rw (← same) (body_gone, headers_gone)
  where
    no_entry : (n v : Bytes) → ◌≡◌ {A = Option Bytes} (empty n) (some v) → ⊥
    no_entry n v e = cc
