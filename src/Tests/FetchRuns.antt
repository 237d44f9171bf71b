-- ===== src/Tests/FetchRuns.antt =====
-- A fetch request that is accepted, with a parser that knows one URL.
use avault.Prelude.{◌≡◌, refl, false, none, some, [], ◌∷◌}
use avault.Prelude.Bytes.{codes, eq_bytes, lower_byte, upper_byte}
use avault.Prelude.Result.{ok}
use avault.Fetch.{
  header, FetchRequest, domain, Url, UrlCrate, validate_fetch_method, validate_fetch_url,
  validate_header_name, validate_header, validate_headers, reject_header_conflict, validate_inject,
  validate_allowed_host, validate_allowed_hosts, fetch_url_host, validate_allowed_fetch_host,
  validate_fetch_input,
}
use avault.Prelude.Text.{trim, trim_start, trim_end}
use avault.Fetch.Checks.{Accepted, validate_fetch_input-Accepted}

abbrev url : Url
url = record {
  scheme = codes "https";
  host = some (domain (codes "api.example.com"));
  query_pairs = [];
}

abbrev toy_urls : UrlCrate
toy_urls = record {
  parse = λ text. some url;
  ipv4_to_string = λ a b c d. [];
  ipv6_to_string = λ addr. [];
  is_ipv6 = λ text. false;
}

abbrev request : FetchRequest
request = record {
  method = codes "get";
  url = codes "https://api.example.com/";
  allowed_hosts = codes "API.example.com" ∷ [];
  headers = (codes "accept", codes "*/*") ∷ [];
  body = none;
  inject = header (codes "X-Api-Key");
}

accepts : validate_fetch_input toy_urls request ≡ ok (url, false)
unfolding validate_fetch_input validate_fetch_method validate_fetch_url validate_header_name
    validate_header validate_headers reject_header_conflict validate_inject validate_allowed_host
    validate_allowed_hosts fetch_url_host validate_allowed_fetch_host trim trim_start trim_end
    eq_bytes lower_byte upper_byte
accepts = refl

validate_fetch_input-Accepted_example : Accepted toy_urls request url false
validate_fetch_input-Accepted_example = validate_fetch_input-Accepted toy_urls request accepts
