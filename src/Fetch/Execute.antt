-- ===== src/Fetch/Execute.antt =====
-- The request itself, from crates/avault-cli/src/main.rs: `execute_fetch_request` attaches the
-- credential and `perform_fetch` redacts the response. The client (ureq, without redirects) is a
-- function of the method, the URL, the headers, the body, and whether a proxy may be used. The map of
-- response headers is a function.
use avault.Prelude.{
  ℕ, ◌+◌, Bool, true, false, not, ◌||◌, Option, none, some, List, [], ◌∷◌, ◌++◌, ltb, ◌==◌,
  if◌then◌else◌, within, is_some, length, take, any, all,
}
use avault.Prelude.Bytes.{Bytes, codes, to_ascii_uppercase}
use avault.Prelude.Result.{Result, ok, ◌>>=◌, ◌>>◌, guard, bail_if, or_fail, map_err}
use avault.Prelude.Maps.{Map, empty, insert, bytes_eq}
use avault.Inject.{is_utf8, secret_utf8, InjectError}
use avault.Query.{QueryError, push_query_encoded, build_secret_query_url}
use avault.Redact.{RedactError, find_subslice, max_fetch_body_bytes, redact_fetch_body}
use avault.Fetch.{FetchInject, bearer, header, query, FetchRequest}

pub data ExecuteError : Type 0 where
  not_ascii control_byte credential_not_utf8 : ExecuteError
  query_credential : InjectError → ExecuteError
  query_url : QueryError → ExecuteError
  transport body_failed body_too_large header_not_utf8 body_not_utf8 : ExecuteError
  redaction : RedactError → ExecuteError

-- `bytes` without one line end.
unfoldable pub strip_line_end : Bytes → Bytes
strip_line_end [] = []
strip_line_end (b ∷ []) = if b == 13 || b == 10 then [] else b ∷ []
strip_line_end (b ∷ c ∷ bytes) = b ∷ strip_line_end (c ∷ bytes)

abbrev pub is_http_control_byte : ℕ → Bool
is_http_control_byte byte = ltb byte 0x20 || byte == 0x7F

unfoldable pub fetch_header_credential_bytes : Bytes → Result ExecuteError Bytes
fetch_header_credential_bytes bytes = do
  let trimmed = strip_line_end bytes
  guard (all (λ b. ltb b 128) trimmed) not_ascii
  bail_if (any is_http_control_byte trimmed) control_byte
  ok trimmed

-- A needle for the credential, if it is not empty.
abbrev pub needles_of : Bytes → List Bytes
needles_of [] = []
needles_of (b ∷ bytes) = (b ∷ bytes) ∷ []

-- The two needles for the parameter of a query.
abbrev pub query_needles : Bytes → List Bytes
query_needles [] = []
query_needles (b ∷ bytes) = (b ∷ bytes) ∷ push_query_encoded (b ∷ bytes) ∷ []

-- What `execute_fetch_request` gives to `perform_fetch`.
pub record Prepared : Type 0 where
  pub secret_header : Option (Bytes × Bytes)
  pub target_url : Bytes
  pub needles : List Bytes

abbrev pub with_header : Bytes → Bytes → Bytes → Bytes → Prepared
with_header url name value credential = record {
  secret_header = some (name, value);
  target_url = url;
  needles = needles_of credential;
}

-- `parses` is whether `Url::parse` accepts a URL.
unfoldable pub prepare_fetch :
    (Bytes → Bool) → FetchInject → Bytes → Bytes → Result ExecuteError Prepared
prepare_fetch parses bearer url secret = do
  credential ← fetch_header_credential_bytes secret
  guard (is_utf8 credential) credential_not_utf8
  ok (with_header url (codes "Authorization") (codes "Bearer " ++ credential) credential)
prepare_fetch parses (header name) url secret = do
  credential ← fetch_header_credential_bytes secret
  guard (is_utf8 credential) credential_not_utf8
  ok (with_header url name credential credential)
prepare_fetch parses (query name) url secret = do
  text ← map_err query_credential (secret_utf8 secret)
  target ← map_err query_url (build_secret_query_url parses url name text)
  ok (record { secret_header = none; target_url = target; needles = query_needles secret })

-- A response: `header` is the first value under a name, and `reader` gives the body, or fails.
pub record Response : Type 0 where
  pub status : ℕ
  pub headers_names : List Bytes
  pub header : Bytes → Option Bytes
  pub reader : Option Bytes

-- `none` is a failure of the transport; a status of 400 or more is a response.
abbrev pub HttpClient : Type 0
HttpClient = Bytes → Bytes → List (Bytes × Bytes) → Option Bytes → Bool → Option Response

pub record FetchOutput : Type 0 where
  pub status : ℕ
  pub headers : Map Bytes Bytes
  pub body : Bytes

abbrev pub is_nil : Bytes → Bool
is_nil [] = true
is_nil (b ∷ bytes) = false

-- `windows(needle.len()).any(..)`.
abbrev pub occurs : Bytes → Bytes → Bool
occurs value needle = is_some (find_subslice value needle)

unfoldable pub redact_fetch_header_text : Bytes → List Bytes → Result ExecuteError Bytes
redact_fetch_header_text value needles =
    if all (λ needle. is_nil needle || not (occurs value needle)) needles then ok value else (do
      bytes ← map_err redaction (redact_fetch_body value needles)
      guard (is_utf8 bytes) header_not_utf8
      ok bytes)

unfoldable pub read_capped_fetch_body : Response → List Bytes → Result ExecuteError Bytes
read_capped_fetch_body response needles = do
  stream ← or_fail response.reader body_failed
  let body = take (max_fetch_body_bytes + 1) stream
  bail_if (ltb max_fetch_body_bytes (length body)) body_too_large
  redacted ← map_err redaction (redact_fetch_body body needles)
  guard (is_utf8 redacted) body_not_utf8
  ok redacted

unfoldable pub header_entry : Bytes → Bytes → List Bytes → Result ExecuteError (Bytes × Bytes)
header_entry name value needles = do
  name ← redact_fetch_header_text name needles
  value ← redact_fetch_header_text value needles
  ok (name, value)

unfoldable pub response_headers :
    Response → List Bytes → List Bytes → Map Bytes Bytes → Result ExecuteError (Map Bytes Bytes)
response_headers response needles [] headers = ok headers
response_headers response needles (name ∷ names) headers = elim (response.header name) [
  | none ↦ response_headers response needles names headers
  | some value ↦ header_entry name value needles >>= λ entry.
      response_headers response needles names (insert entry.0 entry.1 headers)
]

abbrev pub added : Option (Bytes × Bytes) → List (Bytes × Bytes) → List (Bytes × Bytes)
added none headers = headers
added (some secret_header) headers = headers ++ secret_header ∷ []

unfoldable pub perform_fetch :
    HttpClient
    → Bytes
    → Prepared
    → List (Bytes × Bytes)
    → Option Bytes
    → Bool
    → Result ExecuteError FetchOutput
perform_fetch client method prepared headers body is_loopback = do
  response ←
      or_fail
        (client (to_ascii_uppercase method) prepared.target_url
          (added prepared.secret_header headers) body (not is_loopback))
        transport
  response_headers ← response_headers response prepared.needles response.headers_names empty
  body ← read_capped_fetch_body response prepared.needles
  ok (record { status = response.status; headers = response_headers; body = body })

unfoldable pub execute_fetch_request :
    (Bytes → Bool) → HttpClient → FetchRequest → Bytes → Bool → Result ExecuteError FetchOutput
execute_fetch_request parses client request secret is_loopback = do
  prepared ← prepare_fetch parses request.inject request.url secret
  perform_fetch client request.method prepared request.headers request.body is_loopback

abbrev pub fetch_output_exit_code : FetchOutput → ℕ
fetch_output_exit_code output = if within 200 299 output.status then 0 else 1
