-- ===== src/Query.antt =====
-- The query of a fetch request, from crates/avault-cli/src/main.rs: `build_secret_query_url`,
-- `push_query_encoded` and `encoded_query_len`. The URL has been parsed by its crate before.
pub mod Forms
pub mod Encoding
use avault.Prelude.{
  ℕ, ◌+◌, ◌/◌, ◌%◌, Bool, not, ◌||◌, [], ◌∷◌, ◌++◌, ltb, ◌==◌, if◌then◌else◌, length,
}
use avault.Prelude.Bytes.{Bytes, contains_byte, is_upper, is_lower, is_digit}
use avault.Prelude.Result.{Result, ok, ◌>>=◌, ◌>>◌, bail_if}

abbrev pub is_unreserved : ℕ → Bool
is_unreserved c =
    is_upper c || is_lower c || is_digit c || c == b'-' || c == b'.' || c == b'_' || c == b'~'

-- The entry of `HEX`.
abbrev pub hex_digit : ℕ → ℕ
hex_digit n = if ltb n 10 then 48 + n else 55 + n

abbrev pub query_byte : ℕ → Bytes
query_byte c =
    if is_unreserved c
    then c ∷ []
    else if c == b' '
    then b'+' ∷ []
    else b'%' ∷ hex_digit (c / 16) ∷ hex_digit (c % 16) ∷ []

-- What `push_query_encoded` adds to the output.
unfoldable pub push_query_encoded : Bytes → Bytes
push_query_encoded [] = []
push_query_encoded (c ∷ cs) = query_byte c ++ push_query_encoded cs

unfoldable pub encoded_query_len : Bytes → ℕ
encoded_query_len [] = 0
encoded_query_len (c ∷ cs) = (if is_unreserved c || c == b' ' then 1 else 3) + encoded_query_len cs

-- The URL up to `#`, and the rest.
unfoldable pub split_fragment : Bytes → Bytes × Bytes
split_fragment [] = ([], [])
split_fragment (c ∷ cs) =
    let rest = split_fragment cs in if c == b'#' then ([], c ∷ cs) else (c ∷ rest.0, rest.1)

abbrev pub separator : Bytes → ℕ
separator base = if contains_byte base b'?' then b'&' else b'?'

-- The capacity that is reserved for the URL.
abbrev pub capacity : Bytes → Bytes → Bytes → Bytes → ℕ
capacity base fragment name value =
    length base + 1 + encoded_query_len name + 1 + encoded_query_len value + length fragment

abbrev pub query_url : Bytes → Bytes → Bytes → Bytes → Bytes
query_url base fragment name value =
    base
    ++ (separator base
        ∷ (push_query_encoded name ++ (b'=' ∷ (push_query_encoded value ++ fragment))))

pub data QueryError : Type 0 where
  url_invalid : QueryError

-- `parses` is whether `Url::parse` accepts the URL.
unfoldable pub build_secret_query_url :
    (Bytes → Bool) → Bytes → Bytes → Bytes → Result QueryError Bytes
build_secret_query_url parses url name value = do
  bail_if (not (parses url)) url_invalid
  let (base, fragment) = split_fragment url
  ok (query_url base fragment name value)
