-- ===== src/Fetch/Checks.antt =====
-- What holds of a fetch request that was accepted.
use avault.Prelude.{
  ◌≡◌, refl, Bool, true, false, not, ◌&&◌, ◌||◌, some, List, [], ◌∷◌, arith, any, All,
}
use avault.Prelude.Bytes.{Bytes, codes, eq_bytes, eq_ignore_ascii_case}
use avault.Prelude.Result.{ok, bail_if, or_fail, bind-eq-ok, or_fail-eq-ok, ok-injective}
use mathlib.Core.Path.{subst}
use avault.Fetch.{
  FetchError, FetchInject, bearer, header, query, FetchRequest, Url, UrlCrate, is_loopback_url,
  validate_fetch_url, is_header_token_byte, is_control, validate_header_name, validate_header,
  validate_headers, has_header, has_query, reject_header_conflict, reject_query_conflict,
  validate_query_name, validate_inject, validate_allowed_hosts, fetch_url_host,
  validate_allowed_fetch_host, validate_fetch_method, validate_fetch_input, url_invalid,
  url_host_required, allowed_hosts_required, no_hosts, header_conflict, query_conflict,
  invalid_header_value,
}

-- The credential has a place of its own: no header, or parameter of the query, of the request has
-- the name under which it is sent.
abbrev pub OwnPlace : Url → List (Bytes × Bytes) → FetchInject → Type 0
OwnPlace url headers bearer = has_header headers (codes "Authorization") ≡ false
OwnPlace url headers (header name) = has_header headers name ≡ false
OwnPlace url headers (query name) = has_query url name ≡ false

pub record Accepted (u : UrlCrate) (request : FetchRequest) (url : Url) (is_loopback : Bool)
    : Type 0 where
  pub url_is : u.parse request.url ≡ some url
  pub loopback_is : is_loopback ≡ is_loopback_url url
  pub secure :
      (eq_bytes url.scheme (codes "https") || (eq_bytes url.scheme (codes "http") && is_loopback))
      ≡ true
  pub host : Bytes
  pub host_is : fetch_url_host u url ≡ some host
  pub host_allowed : any (eq_ignore_ascii_case host) request.allowed_hosts ≡ true
  pub clean_headers :
      All
        (λ h. (any is_control h.1 ≡ false) × (any (λ c. not (is_header_token_byte c)) h.0 ≡ false))
        request.headers
  pub own_place : OwnPlace url request.headers request.inject

bail_if-eq-ok : (b : Bool) (e : FetchError) → bail_if b e ≡ ok tt → b ≡ false
bail_if-eq-ok true e h = cc
bail_if-eq-ok false e h = refl

validate_headers-clean :
    (headers : List (Bytes × Bytes))
    → validate_headers headers ≡ ok tt
    → All
        (λ h. (any is_control h.1 ≡ false) × (any (λ c. not (is_header_token_byte c)) h.0 ≡ false))
        headers
unfolding validate_headers validate_header validate_header_name
validate_headers-clean [] h = tt
validate_headers-clean ((name, value) ∷ headers) h =
    let (u, first, h1) = bind-eq-ok (validate_header name value) _ h in
    let (u', named, valued) = bind-eq-ok (validate_header_name name) _ first in
    (
      (bail_if-eq-ok (any is_control value) invalid_header_value valued, ground arith),
      validate_headers-clean headers h1,
    )

validate_inject-OwnPlace :
    (url : Url) (headers : List (Bytes × Bytes)) (inject : FetchInject)
    → validate_inject url headers inject ≡ ok tt
    → OwnPlace url headers inject
unfolding validate_inject reject_header_conflict reject_query_conflict
validate_inject-OwnPlace url headers bearer h =
    bail_if-eq-ok (has_header headers (codes "Authorization")) header_conflict h
validate_inject-OwnPlace url headers (header name) h =
    let (u, named, last) = bind-eq-ok (validate_header_name name) _ h in
    bail_if-eq-ok (has_header headers name) header_conflict last
validate_inject-OwnPlace url headers (query name) h =
    let (u, named, last) = bind-eq-ok (validate_query_name name) _ h in
    bail_if-eq-ok (has_query url name) query_conflict last

module _ (u : UrlCrate) where
  host_allowed_lem :
      (url : Url) (hosts : List Bytes)
      → validate_allowed_fetch_host u url hosts ≡ ok tt
      → (host : Bytes) × (fetch_url_host u url ≡ some host)
        × (any (eq_ignore_ascii_case host) hosts ≡ true)
  unfolding validate_allowed_fetch_host
  host_allowed_lem url hosts h =
      let (a, b, h1) = bind-eq-ok (bail_if (no_hosts hosts) allowed_hosts_required) _ h in
      let (c, d, h2) = bind-eq-ok (validate_allowed_hosts u hosts) _ h1 in
      let (host, is, h3) = bind-eq-ok (or_fail (fetch_url_host u url) url_host_required) _ h2 in
      (host, or_fail-eq-ok _ _ is, ground arith)

  -- An accepted fetch request goes over https, or over http to a loopback host, to a host on its
  -- list, with headers of token names and values without control bytes, and no header or query
  -- parameter of it has the name under which the credential is sent.
  pub validate_fetch_input-Accepted :
      (request : FetchRequest) {url : Url} {is_loopback : Bool}
      → validate_fetch_input u request ≡ ok (url, is_loopback)
      → Accepted u request url is_loopback
  unfolding validate_fetch_input validate_fetch_url
  validate_fetch_input-Accepted request {url = url} {is_loopback = is_loopback} h =
      let (found, parsed, h1) = bind-eq-ok (or_fail (u.parse request.url) url_invalid) _ h in
      let (u1, secure, h2) = bind-eq-ok (validate_fetch_url found) _ h1 in
      let (u2, allowed, h3) =
        bind-eq-ok (validate_allowed_fetch_host u found request.allowed_hosts) _ h2 in
      let (u3, method, h4) = bind-eq-ok (validate_fetch_method request.method) _ h3 in
      let (u4, headers, h5) = bind-eq-ok (validate_headers request.headers) _ h4 in
      let (u5, place, last) =
        bind-eq-ok (validate_inject found request.headers request.inject) _ h5 in
      let (host, host_is, on_list) = host_allowed_lem found request.allowed_hosts allowed in
      let made : Accepted u request found (is_loopback_url found) = record {
        url_is = or_fail-eq-ok _ _ parsed;
        loopback_is = refl;
        secure = ground arith;
        host = host;
        host_is = host_is;
        host_allowed = on_list;
        clean_headers = validate_headers-clean request.headers headers;
        own_place = validate_inject-OwnPlace found request.headers request.inject place;
      } in
      subst (λ (p : Url × Bool). Accepted u request p.0 p.1) (ok-injective last) made
