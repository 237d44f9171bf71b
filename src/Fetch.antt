-- ===== src/Fetch.antt =====
-- What a fetch request must satisfy before a credential is attached, from
-- crates/avault-cli/src/main.rs: `validate_fetch_input` and the checks that it makes. The parsers of
-- URLs and of IPv6 addresses, and the text of an address, are operations of `UrlCrate`. The map of
-- headers is a list in its order.
pub mod Checks
pub mod Execute
pub mod Response
pub mod Hiding
use avault.Prelude.{
  ℕ, Bool, true, false, not, ◌&&◌, ◌||◌, Option, none, some, List, [], ◌∷◌, ltb, ◌==◌,
  if◌then◌else◌, any,
}
use avault.Prelude.Bytes.{
  Bytes, codes, eq_bytes, contains_byte, is_upper, is_lower, is_digit, to_ascii_uppercase,
  eq_ignore_ascii_case,
}
use avault.Prelude.Result.{Result, ok, err, ◌>>=◌, ◌>>◌, bail_if, or_fail}
use avault.Prelude.Text.{trim}

pub data FetchError : Type 0 where
  url_invalid plaintext_http scheme_not_allowed : FetchError
  allowed_hosts_required invalid_allowed_host url_host_required host_not_allowed : FetchError
  invalid_method method_not_allowed : FetchError
  invalid_header_name invalid_header_value header_conflict : FetchError
  invalid_query_name query_conflict : FetchError

pub data FetchInject : Type 0 where
  bearer : FetchInject
  header query : Bytes → FetchInject

pub record FetchRequest : Type 0 where
  pub method : Bytes
  pub url : Bytes
  pub allowed_hosts : List Bytes
  pub headers : List (Bytes × Bytes)
  pub body : Option Bytes
  pub inject : FetchInject

-- The host of a URL; an IPv4 address is its four bytes, an IPv6 address a number.
pub data Host : Type 0 where
  domain : Bytes → Host
  ipv4 : ℕ → ℕ → ℕ → ℕ → Host
  ipv6 : ℕ → Host

pub record Url : Type 0 where
  pub scheme : Bytes
  pub host : Option Host
  pub query_pairs : List (Bytes × Bytes)

pub record UrlCrate : Type 0 where
  pub parse : Bytes → Option Url
  pub ipv4_to_string : ℕ → ℕ → ℕ → ℕ → Bytes
  pub ipv6_to_string : ℕ → Bytes
  pub is_ipv6 : Bytes → Bool

abbrev is_alphabetic : ℕ → Bool
is_alphabetic c = is_upper c || is_lower c

abbrev is_nil : Bytes → Bool
is_nil [] = true
is_nil (x ∷ xs) = false

unfoldable pub validate_fetch_method : Bytes → Result FetchError (Unit {0})
validate_fetch_method text = do
  bail_if (is_nil text || any (λ c. not (is_alphabetic c)) (to_ascii_uppercase text)) invalid_method
  bail_if
      (any (eq_bytes (to_ascii_uppercase text))
        (codes "TRACE" ∷ codes "TRACK" ∷ codes "CONNECT" ∷ []))
      method_not_allowed
  ok tt

-- `Ipv4Addr::is_loopback` and `Ipv6Addr::is_loopback` are 127.0.0.0/8 and `::1`.
abbrev pub is_loopback_host : Option Host → Bool
is_loopback_host none = false
is_loopback_host (some (domain host)) = eq_ignore_ascii_case host (codes "localhost")
is_loopback_host (some (ipv4 a b c d)) = a == 127
is_loopback_host (some (ipv6 addr)) = addr == 1

abbrev pub is_loopback_url : Url → Bool
is_loopback_url url = is_loopback_host url.host

unfoldable pub validate_fetch_url : Url → Result FetchError (Unit {0})
validate_fetch_url url =
    if eq_bytes url.scheme (codes "https")
    then ok tt
    else if eq_bytes url.scheme (codes "http")
    then (if is_loopback_url url then ok tt else err plaintext_http)
    else err scheme_not_allowed

abbrev is_forbidden_in_host : ℕ → Bool
is_forbidden_in_host c = contains_byte (codes "/\\@[]\r\n?#") c

-- `is_header_token_byte`.
abbrev pub is_header_token_byte : ℕ → Bool
is_header_token_byte c =
    is_upper c || is_lower c || is_digit c || contains_byte (codes "!#$%&'*+-.^_`|~") c

unfoldable pub validate_header_name : Bytes → Result FetchError (Unit {0})
validate_header_name name =
    bail_if
      (is_nil name
        || eq_ignore_ascii_case name (codes "host")
        || any (λ c. not (is_header_token_byte c)) name)
      invalid_header_name

abbrev pub is_control : ℕ → Bool
is_control c = ltb c 32 || c == 127

unfoldable pub validate_header : Bytes → Bytes → Result FetchError (Unit {0})
validate_header name value = do
  validate_header_name name
  bail_if (any is_control value) invalid_header_value

unfoldable pub validate_headers : List (Bytes × Bytes) → Result FetchError (Unit {0})
validate_headers [] = ok tt
validate_headers ((name, value) ∷ headers) = do validate_header name value; validate_headers headers

abbrev pub has_header : List (Bytes × Bytes) → Bytes → Bool
has_header headers injected_name = any (λ h. eq_ignore_ascii_case h.0 injected_name) headers

unfoldable pub reject_header_conflict : List (Bytes × Bytes) → Bytes → Result FetchError (Unit {0})
reject_header_conflict headers injected_name =
    bail_if (has_header headers injected_name) header_conflict

unfoldable pub validate_query_name : Bytes → Result FetchError (Unit {0})
validate_query_name name =
    bail_if (is_nil name || contains_byte name 13 || contains_byte name 10) invalid_query_name

abbrev pub has_query : Url → Bytes → Bool
has_query url injected_name = any (λ p. eq_bytes p.0 injected_name) url.query_pairs

unfoldable pub reject_query_conflict : Url → Bytes → Result FetchError (Unit {0})
reject_query_conflict url injected_name = bail_if (has_query url injected_name) query_conflict

unfoldable pub validate_inject :
    Url → List (Bytes × Bytes) → FetchInject → Result FetchError (Unit {0})
validate_inject url headers bearer = reject_header_conflict headers (codes "Authorization")
validate_inject url headers (header name) = do
  validate_header_name name
  reject_header_conflict headers name
validate_inject url headers (query name) = do
  validate_query_name name
  reject_query_conflict url name

abbrev no_hosts : List Bytes → Bool
no_hosts [] = true
no_hosts (h ∷ hs) = false

module _ (u : UrlCrate) where
  unfoldable pub validate_allowed_host : Bytes → Result FetchError (Unit {0})
  validate_allowed_host host = do
    bail_if (is_nil (trim host) || not (eq_bytes (trim host) host) || any is_forbidden_in_host host)
        invalid_allowed_host
    bail_if (contains_byte host b':' && not (u.is_ipv6 host)) invalid_allowed_host

  unfoldable pub validate_allowed_hosts : List Bytes → Result FetchError (Unit {0})
  validate_allowed_hosts [] = ok tt
  validate_allowed_hosts (host ∷ hosts) = do
    validate_allowed_host host
    validate_allowed_hosts hosts

  unfoldable pub fetch_url_host : Url → Option Bytes
  fetch_url_host url = elim url.host [
    | none ↦ none
    | some (domain host) ↦ some host
    | some (ipv4 a b c d) ↦ some (u.ipv4_to_string a b c d)
    | some (ipv6 addr) ↦ some (u.ipv6_to_string addr)
  ]

  unfoldable pub validate_allowed_fetch_host : Url → List Bytes → Result FetchError (Unit {0})
  validate_allowed_fetch_host url allowed_hosts = do
    bail_if (no_hosts allowed_hosts) allowed_hosts_required
    validate_allowed_hosts allowed_hosts
    host ← or_fail (fetch_url_host url) url_host_required
    bail_if (not (any (eq_ignore_ascii_case host) allowed_hosts)) host_not_allowed

  unfoldable pub validate_fetch_input : FetchRequest → Result FetchError (Url × Bool)
  validate_fetch_input request = do
    url ← or_fail (u.parse request.url) url_invalid
    validate_fetch_url url
    validate_allowed_fetch_host url request.allowed_hosts
    validate_fetch_method request.method
    validate_headers request.headers
    validate_inject url request.headers request.inject
    ok (url, is_loopback_url url)
