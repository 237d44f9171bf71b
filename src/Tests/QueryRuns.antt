-- ===== src/Tests/QueryRuns.antt =====
-- The query of a fetch request on a concrete URL.
use avault.Prelude.{◌≡◌, refl, true, some, ◌++◌, arith, length, take}
use avault.Prelude.Bytes.{Bytes, codes}
use avault.Prelude.Result.{ok}
use avault.Query.{build_secret_query_url, split_fragment, push_query_encoded, capacity}
use avault.Query.Encoding.{after_mark, read_last, build_secret_query_url-read}

abbrev url : Bytes
url = codes "https://h/p?a=1#f"

abbrev built : Bytes
built = codes "https://h/p?a=1&key=s%26+x#f"

builds : build_secret_query_url (λ u. true) url (codes "key") (codes "s& x") ≡ ok built
unfolding build_secret_query_url split_fragment push_query_encoded
builds = refl

build_secret_query_url-read_example :
    (url ≡ (split_fragment url).0 ++ (split_fragment url).1)
    × (take (length (split_fragment url).0) built ≡ (split_fragment url).0)
    × (read_last (after_mark built) ≡ some (codes "key", codes "s& x", (split_fragment url).1))
    × (length built
        ≡ capacity (split_fragment url).0 (split_fragment url).1 (codes "key") (codes "s& x"))
build_secret_query_url-read_example =
    build_secret_query_url-read (λ u. true) url (codes "key") (codes "s& x")
      (omega arith, (omega arith, (omega arith, tt)))
      (omega arith, (omega arith, (omega arith, (omega arith, tt)))) builds
