-- ===== src/Fetch/Hiding.antt =====
-- `execute_fetch_request`: what was sent of the secret does not come back.
use avault.Prelude.{
  ◌<◌, ◌≡◌, refl, sym, ap, ◌∙◌, ◌⊎◌, inl, inr, Bool, Option, some, List, [], ◌∷◌, ◌++◌, ltb, any,
  all, All,
}
use avault.Prelude.Bytes.{Bytes, codes}
use avault.Prelude.Result.{ok, ◌>>=◌, ◌>>◌, guard, bail_if, map_err, bind-eq-ok, ok-injective}
use avault.Prelude.Maps.{bytes_eq}
use avault.Inject.{is_utf8, secret_utf8}
use avault.Query.{push_query_encoded, build_secret_query_url}
use avault.Redact.Secrecy.{IsForeign, IsGone}
use avault.Fetch.{FetchInject, bearer, header, query, FetchRequest}
use avault.Fetch.Execute.{
  not_ascii, control_byte, credential_not_utf8, query_credential, query_url, strip_line_end,
  is_http_control_byte, fetch_header_credential_bytes, needles_of, query_needles, Prepared,
  with_header, prepare_fetch, HttpClient, FetchOutput, perform_fetch, execute_fetch_request,
}
use avault.Fetch.Response.{strip-IsForeign, encoded-IsForeign, perform_fetch-IsGone}

-- What is sent of the secret.
abbrev pub SentAs : FetchInject → Bytes → Bytes → Type 0
SentAs bearer secret sent = sent ≡ strip_line_end secret
SentAs (header name) secret sent = sent ≡ strip_line_end secret
SentAs (query name) secret sent = (sent ≡ secret) ⊎ (sent ≡ push_query_encoded secret)

-- The text does not show what was sent, if that is not empty.
abbrev pub Hides : FetchOutput → Bytes → Type 0
Hides output sent =
    IsGone output.body sent
    × ((name value : Bytes)
        → output.headers name ≡ some value
        → IsGone name sent × IsGone value sent)

pick_needle :
    (text credential : Bytes) → All (IsGone text) (needles_of credential) → IsGone text credential
pick_needle text [] h = λ ne. absurd (ne refl)
pick_needle text (b ∷ credential) (h, _) = h

pick_query_needles :
    (text secret : Bytes)
    → All (IsGone text) (query_needles secret)
    → IsGone text secret × IsGone text (push_query_encoded secret)
pick_query_needles text [] h =
    (λ ne. absurd (ne refl), λ ne. absurd (ne (unfold push_query_encoded in refl)))
pick_query_needles text (b ∷ secret) (h, (k, _)) = (h, k)

needles_of-IsForeign :
    (credential : Bytes) → IsForeign credential → All IsForeign (needles_of credential)
needles_of-IsForeign [] f = tt
needles_of-IsForeign (b ∷ credential) f = (f, tt)

query_needles-IsForeign :
    (secret : Bytes)
    → IsForeign secret
    → IsForeign (push_query_encoded secret)
    → All IsForeign (query_needles secret)
query_needles-IsForeign [] f g = tt
query_needles-IsForeign (b ∷ secret) f g = (f, (g, tt))

-- The needles are made of what is sent.
credential_needles :
    (secret credential : Bytes)
    → fetch_header_credential_bytes secret ≡ ok credential
    → strip_line_end secret ≡ credential
unfolding fetch_header_credential_bytes
credential_needles secret credential h =
    let trimmed = strip_line_end secret in
    let (_, _, h₁) = bind-eq-ok (guard (all (λ b. ltb b 128) trimmed) not_ascii) _ h in
    let (_, _, h₂) = bind-eq-ok (bail_if (any is_http_control_byte trimmed) control_byte) _ h₁ in
    ok-injective h₂

header_needles :
    (name value : Bytes → Bytes) (url secret : Bytes) (prepared : Prepared)
    → (fetch_header_credential_bytes secret >>= λ credential.
        guard (is_utf8 credential) credential_not_utf8
        >> ok (with_header url (name credential) (value credential) credential))
      ≡ ok prepared
    → prepared.needles ≡ needles_of (strip_line_end secret)
header_needles name value url secret prepared h =
    let (credential, c, h₁) = bind-eq-ok (fetch_header_credential_bytes secret) _ h in
    let (_, _, h₂) = bind-eq-ok (guard (is_utf8 credential) credential_not_utf8) _ h₁ in
    ap (λ p. p.needles) (sym (ok-injective h₂))
    ∙ ap needles_of (sym (credential_needles secret credential c))

query_needles_lem :
    (parses : Bytes → Bool) (name url secret : Bytes) (prepared : Prepared)
    → prepare_fetch parses (query name) url secret ≡ ok prepared
    → prepared.needles ≡ query_needles secret
unfolding prepare_fetch
query_needles_lem parses name url secret prepared h =
    let (text, _, h₁) = bind-eq-ok (map_err query_credential (secret_utf8 secret)) _ h in
    let (target, _, h₂) =
      bind-eq-ok (map_err query_url (build_secret_query_url parses url name text)) _ h₁ in
    ap (λ p. p.needles) (sym (ok-injective h₂))

module _ (client : HttpClient) (method secret sent : Bytes) (headers : List (Bytes × Bytes))
    (body : Option Bytes) (is_loopback : Bool) (output : FetchOutput) (prepared : Prepared)
    (run : perform_fetch client method prepared headers body is_loopback ≡ ok output) where
  header-Hides :
      IsForeign secret
      → prepared.needles ≡ needles_of (strip_line_end secret)
      → sent ≡ strip_line_end secret
      → Hides output sent
  header-Hides f n s =
      let credential = strip_line_end secret in
      let foreign = needles_of-IsForeign credential (strip-IsForeign secret f) in
      let (b, h) =
        perform_fetch-IsGone client method prepared headers body is_loopback output (rw n foreign)
          run in
      rw s (
        pick_needle output.body credential (rw n at b),
        λ name value e.
            let (x, y) = h name value e in
            (pick_needle name credential (rw n at x), pick_needle value credential (rw n at y)),
      )

  query-Hides :
      All (λ c. c < 256) secret
      → IsForeign secret
      → prepared.needles ≡ query_needles secret
      → (sent ≡ secret) ⊎ (sent ≡ push_query_encoded secret)
      → Hides output sent
  query-Hides bytes f n s =
      let foreign = query_needles-IsForeign secret f (encoded-IsForeign secret bytes f) in
      let (b, h) =
        perform_fetch-IsGone client method prepared headers body is_loopback output (rw n foreign)
          run in
      let in_body = pick_query_needles output.body secret (rw n at b) in
      elim s [
        | inl e ↦ rw e (
          in_body.0,
          λ name value g.
              let (x, y) = h name value g in
              (
                (pick_query_needles name secret (rw n at x)).0,
                (pick_query_needles value secret (rw n at y)).0,
              ),
        )
        | inr e ↦ rw e (
          in_body.1,
          λ name value g.
              let (x, y) = h name value g in
              (
                (pick_query_needles name secret (rw n at x)).1,
                (pick_query_needles value secret (rw n at y)).1,
              ),
        )
      ]

-- Whatever the server answers, neither the body nor a header, by its name or its value, of the
-- output of a fetch holds the credential that was sent, a parameter of a query in plain or in its
-- encoded form, if the secret is made of bytes and shares none with the redaction text.
pub execute_fetch_request-Hides :
    (parses : Bytes → Bool) (client : HttpClient) (request : FetchRequest) (secret sent : Bytes)
    (is_loopback : Bool) (output : FetchOutput)
    → All (λ c. c < 256) secret
    → IsForeign secret
    → SentAs request.inject secret sent
    → execute_fetch_request parses client request secret is_loopback ≡ ok output
    → Hides output sent
unfolding execute_fetch_request
execute_fetch_request-Hides parses client request secret sent is_loopback output bytes f s h =
    let (prepared, p, run) =
      bind-eq-ok (prepare_fetch parses request.inject request.url secret) _ h in
    by_inject request.inject s prepared p run
  where
    by_inject :
        (inject : FetchInject)
        → SentAs inject secret sent
        → (prepared : Prepared) → prepare_fetch parses inject request.url secret ≡ ok prepared
        → perform_fetch client request.method prepared request.headers request.body is_loopback
          ≡ ok output
        → Hides output sent
    by_inject bearer s prepared p run =
        header-Hides client request.method secret sent request.headers request.body is_loopback
          output prepared run f
          (header_needles (λ c. codes "Authorization") (λ c. codes "Bearer " ++ c) request.url
            secret prepared (unfold prepare_fetch in p))
          s
    by_inject (header name) s prepared p run =
        header-Hides client request.method secret sent request.headers request.body is_loopback
          output prepared run f
          (header_needles (λ c. name) (λ c. c) request.url secret prepared
            (unfold prepare_fetch in p))
          s
    by_inject (query name) s prepared p run =
        query-Hides client request.method secret sent request.headers request.body is_loopback
          output prepared run bytes f (query_needles_lem parses name request.url secret prepared p)
          s
