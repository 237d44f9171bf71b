-- ===== src/Tests/ExecuteRuns.antt =====
-- A fetch whose server returns the URL and the secret that it was sent.
use avault.Prelude.{◌≡◌, refl, inr, true, false, none, some, [], ◌∷◌, ◌++◌, arith}
use avault.Prelude.Bytes.{Bytes, codes, starts_with, upper_byte}
use avault.Prelude.Result.{ok}
use avault.Prelude.Maps.{empty, insert, bytes_eq}
use avault.Inject.{secret_utf8}
use avault.Query.{push_query_encoded, build_secret_query_url}
use avault.Redact.{find_subslice, redact_fetch_body}
use avault.Fetch.{query, FetchRequest}
use avault.Fetch.Execute.{
  prepare_fetch, HttpClient, FetchOutput, redact_fetch_header_text, read_capped_fetch_body,
  header_entry, response_headers, perform_fetch, execute_fetch_request,
}
use avault.Fetch.Hiding.{Hides, execute_fetch_request-Hides}
use avault.Redact.{redact_verbatim_bytes, count_matches, replace_matches, redacted_body_len}
use avault.Query.{split_fragment}
use avault.Inject.{utf8_from}

abbrev echo : HttpClient
echo method url headers body proxy = some (record {
  status = 200;
  headers_names = codes "x-url" ∷ [];
  header = λ name. some url;
  reader = some (codes "got K Q from " ++ url);
})

abbrev request : FetchRequest
request = record {
  method = codes "get";
  url = codes "https://h/";
  allowed_hosts = codes "h" ∷ [];
  headers = [];
  body = none;
  inject = query (codes "key");
}

abbrev secret : Bytes
secret = codes "K Q"

abbrev hidden : Bytes
hidden = codes "https://h/?key=[avault-redacted]"

abbrev output : FetchOutput
output = record {
  status = 200;
  headers = insert (codes "x-url") hidden empty;
  body = codes "got [avault-redacted] from " ++ hidden;
}

executes : execute_fetch_request (λ url. true) echo request secret false ≡ ok output
unfolding execute_fetch_request prepare_fetch perform_fetch response_headers header_entry
    redact_fetch_header_text read_capped_fetch_body redact_fetch_body redact_verbatim_bytes
    find_subslice count_matches replace_matches redacted_body_len build_secret_query_url
    split_fragment push_query_encoded secret_utf8 utf8_from starts_with upper_byte
executes = refl

execute_fetch_request-Hides_example : Hides output (codes "K+Q")
execute_fetch_request-Hides_example =
    execute_fetch_request-Hides (λ url. true) echo request secret (codes "K+Q") false output
      (omega arith, (omega arith, (omega arith, tt))) refl (inr (unfold push_query_encoded in refl))
      executes
