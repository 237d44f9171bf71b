-- ===== src/Query/Encoding.antt =====
-- The injected parameter reads back, and the URL has just the reserved length.
use avault.Prelude.{
  ℕ, ◌<◌, ◌≡◌, refl, sym, ap, ◌∙◌, inl, inr, Bool, true, false, Option, none, some, [], ◌∷◌, ◌++◌,
  append_assoc, arith, ◌==◌, if◌then◌else◌, Bool-cases, length, take, drop, length-append,
  take-append, All,
}
use avault.Prelude.Bytes.{Bytes, contains_byte}
use avault.Prelude.Result.{ok}
use mathlib.Core.Path.{subst}
use avault.Query.{
  query_byte, push_query_encoded, encoded_query_len, split_fragment, separator, capacity, query_url,
  build_secret_query_url,
}
use avault.Query.Forms.{
  outside, decode_form, part, Ends, decode_form-push_query_encoded, part-push_query_encoded,
}

length-push_query_encoded :
    (text : Bytes) → length (push_query_encoded text) ≡ encoded_query_len text
unfolding push_query_encoded encoded_query_len
length-push_query_encoded [] = refl
length-push_query_encoded (c ∷ cs) =
    ground (
      arith,
      length-push_query_encoded cs,
      length-append {0} (query_byte c) (push_query_encoded cs),
    )

split_fragment-append : (url : Bytes) → (split_fragment url).0 ++ (split_fragment url).1 ≡ url
unfolding split_fragment
split_fragment-append [] = refl
split_fragment-append (c ∷ cs) = ground (arith, split_fragment-append cs)

split_fragment-Ends : (url : Bytes) → Ends (split_fragment url).1
unfolding split_fragment
split_fragment-Ends [] = tt
split_fragment-Ends (c ∷ cs) = elim (Bool-cases (c == b'#')) [
  | inl e ↦ rw e (ground arith)
  | inr e ↦ rw e (split_fragment-Ends cs)
]

abbrev pub with_value : Bytes → Bytes → Option Bytes → Option (Bytes × Bytes × Bytes)
with_value name rest none = none
with_value name rest (some value) = some (name, value, rest)

-- The name and value that a server reads, and what is left of the URL.
abbrev pub read_value : Option Bytes → Bytes × Bytes → Option (Bytes × Bytes × Bytes)
read_value none p = none
read_value (some name) (raw, rest) = with_value name rest (decode_form outside raw)

abbrev pub read_query : Bytes → Option (Bytes × Bytes × Bytes)
read_query text =
    let first = part text in read_value (decode_form outside first.0) (part (drop 1 first.1))

read_query-pair :
    (name value rest : Bytes)
    → All (λ c. c < 256) name
    → All (λ c. c < 256) value
    → Ends rest
    → read_query (push_query_encoded name ++ (b'=' ∷ (push_query_encoded value ++ rest)))
      ≡ some (name, value, rest)
read_query-pair name value rest n v e =
    rw
      (
        part-push_query_encoded name (b'=' ∷ (push_query_encoded value ++ rest)) n refl,
        part-push_query_encoded value rest v e,
        decode_form-push_query_encoded name n,
      )
      (ap (with_value name rest) (decode_form-push_query_encoded value v))

-- What follows the first `?` of a URL that stands before `#`.
unfoldable pub after_mark : Bytes → Option Bytes
after_mark [] = none
after_mark (c ∷ cs) =
    let rest = after_mark cs in if c == b'#' then none else if c == b'?' then some cs else rest

-- A query from the last parameter on; `start` is the last that has begun.
unfoldable pub last_parameter : Bytes → Bytes → Bytes
last_parameter start [] = start
last_parameter start (c ∷ cs) =
    let anew = last_parameter cs cs in
    let on = last_parameter start cs in if c == b'#' then start else if c == b'&' then anew else on

-- The last parameter of a URL's query, and what is left of the URL.
abbrev pub read_last : Option Bytes → Option (Bytes × Bytes × Bytes)
read_last none = none
read_last (some query) = read_query (last_parameter query query)

abbrev IsFragment : Bytes → Type 0
IsFragment [] = Unit
IsFragment (c ∷ cs) = (c == b'#') ≡ true

split_fragment-IsFragment : (url : Bytes) → IsFragment (split_fragment url).1
unfolding split_fragment
split_fragment-IsFragment [] = tt
split_fragment-IsFragment (c ∷ cs) = elim (Bool-cases (c == b'#')) [
  | inl e ↦ rw e e
  | inr e ↦ rw e (split_fragment-IsFragment cs)
]

split_fragment-free : (url : Bytes) → contains_byte (split_fragment url).0 b'#' ≡ false
unfolding split_fragment
split_fragment-free [] = refl
split_fragment-free (c ∷ cs) = ground (arith, split_fragment-free cs)

query_byte-free :
    (c : ℕ) → c < 256 → All (λ b. ((b == b'#') ≡ false) × ((b == b'&') ≡ false)) (query_byte c)
query_byte-free c h = ground arith

last_parameter-passed :
    (start xs rest : Bytes)
    → All (λ b. ((b == b'#') ≡ false) × ((b == b'&') ≡ false)) xs
    → last_parameter start (xs ++ rest) ≡ last_parameter start rest
unfolding last_parameter
last_parameter-passed start [] rest h = refl
last_parameter-passed start (x ∷ xs) rest ((a, b), hs) =
    rw (a, b) (last_parameter-passed start xs rest hs)

last_parameter-text :
    (start text rest : Bytes)
    → All (λ c. c < 256) text
    → last_parameter start (push_query_encoded text ++ rest) ≡ last_parameter start rest
unfolding push_query_encoded
last_parameter-text start [] rest h = refl
last_parameter-text start (c ∷ cs) rest (h, hs) =
    rw (append_assoc (query_byte c) (push_query_encoded cs) rest) (
      last_parameter-passed start (query_byte c) (push_query_encoded cs ++ rest)
        (query_byte-free c h)
      ∙ last_parameter-text start cs rest hs)

last_parameter-fragment :
    (start fragment : Bytes) → IsFragment fragment → last_parameter start fragment ≡ start
unfolding last_parameter
last_parameter-fragment start [] h = refl
last_parameter-fragment start (c ∷ cs) h = rw h refl

-- The last `&` of a query before a text without one.
last_parameter-and :
    (start xs query : Bytes)
    → contains_byte xs b'#' ≡ false
    → last_parameter start (xs ++ (b'&' ∷ query)) ≡ last_parameter query query
unfolding last_parameter
last_parameter-and start [] query h = refl
last_parameter-and start (x ∷ xs) query h =
    let a : (x == b'#') ≡ false = ground arith in
    let hs : contains_byte xs b'#' ≡ false = ground arith in
    elim (Bool-cases (x == b'&')) [
      | inl e ↦ rw (a, e) (last_parameter-and (xs ++ (b'&' ∷ query)) xs query hs)
      | inr e ↦ rw (a, e) (last_parameter-and start xs query hs)
    ]

after_mark-plain :
    (xs query : Bytes)
    → contains_byte xs b'#' ≡ false
    → contains_byte xs b'?' ≡ false
    → after_mark (xs ++ (b'?' ∷ query)) ≡ some query
unfolding after_mark
after_mark-plain [] query h q = refl
after_mark-plain (x ∷ xs) query h q =
    let a : (x == b'#') ≡ false = ground arith in
    let b : (x == b'?') ≡ false = ground arith in
    rw (a, b) (after_mark-plain xs query (ground arith) (ground arith))

after_mark-marked :
    (xs rest : Bytes)
    → contains_byte xs b'#' ≡ false
    → contains_byte xs b'?' ≡ true
    → (query : Bytes) × (after_mark (xs ++ rest) ≡ some (query ++ rest))
      × (contains_byte query b'#' ≡ false)
unfolding after_mark
after_mark-marked [] rest h q = cc
after_mark-marked (x ∷ xs) rest h q =
    let a : (x == b'#') ≡ false = ground arith in
    let hs : contains_byte xs b'#' ≡ false = ground arith in
    elim (Bool-cases (x == b'?')) [
      | inl e ↦ (xs, rw (a, e) refl, hs)
      | inr e ↦
          let (query, m, f) = after_mark-marked xs rest hs (ground arith) in (query, rw (a, e) m, f)
    ]

read_last-query_url :
    (base fragment name value : Bytes)
    → All (λ c. c < 256) name
    → All (λ c. c < 256) value
    → contains_byte base b'#' ≡ false
    → IsFragment fragment
    → Ends fragment
    → read_last (after_mark (query_url base fragment name value)) ≡ some (name, value, fragment)
read_last-query_url base fragment name value n v f g e =
    let query = push_query_encoded name ++ (b'=' ∷ (push_query_encoded value ++ fragment)) in
    let whole : last_parameter query query ≡ query =
      last_parameter-text query name (b'=' ∷ (push_query_encoded value ++ fragment)) n
      ∙ last_parameter-passed query (b'=' ∷ []) (push_query_encoded value ++ fragment)
          ((refl, refl), tt)
      ∙ last_parameter-text query value fragment v
      ∙ last_parameter-fragment query fragment g in
    let pair = read_query-pair name value fragment n v e in
    elim (Bool-cases (contains_byte base b'?')) [
      | inl m ↦
          let (before, at, clean) = after_mark-marked base (b'&' ∷ query) f m in
          rw (m, at, last_parameter-and (before ++ (b'&' ∷ query)) before query clean, whole) pair
      | inr m ↦ rw (m, after_mark-plain base query f m, whole) pair
    ]

-- A URL with a secret in its query keeps its base and its fragment; a server that finds the query
-- after the first `?` before any `#`, takes its last parameter and decodes it as a form reads the
-- name and the value back and is left with the fragment; and the URL has just the capacity that
-- was reserved, if name and value are bytes.
pub build_secret_query_url-read :
    (parses : Bytes → Bool) (url name value : Bytes) {out : Bytes}
    → All (λ c. c < 256) name
    → All (λ c. c < 256) value
    → build_secret_query_url parses url name value ≡ ok out
    → (url ≡ (split_fragment url).0 ++ (split_fragment url).1)
      × (take (length (split_fragment url).0) out ≡ (split_fragment url).0)
      × (read_last (after_mark out) ≡ some (name, value, (split_fragment url).1))
      × (length out ≡ capacity (split_fragment url).0 (split_fragment url).1 name value)
unfolding build_secret_query_url
build_secret_query_url-read parses url name value {out} n v h =
    let base = (split_fragment url).0 in
    let fragment = (split_fragment url).1 in
    let is : query_url base fragment name value ≡ out = ground arith in
    let query = push_query_encoded name ++ (b'=' ∷ (push_query_encoded value ++ fragment)) in
    (
      sym (split_fragment-append url),
      subst (λ o. take (length base) o ≡ base) is (take-append base (separator base ∷ query)),
      subst (λ o. read_last (after_mark o) ≡ some (name, value, fragment)) is
          (read_last-query_url base fragment name value n v (split_fragment-free url)
            (split_fragment-IsFragment url) (split_fragment-Ends url)),
      subst (λ o. length o ≡ capacity base fragment name value) is
          (omega (
            arith,
            length-append {0} base (separator base ∷ query),
            length-append {0} (push_query_encoded name)
                (b'=' ∷ (push_query_encoded value ++ fragment)),
            length-append {0} (push_query_encoded value) fragment,
            length-push_query_encoded name,
            length-push_query_encoded value,
          )),
    )
