-- ===== src/Json/Field.antt =====
-- One field of the text of an object: its key, and what follows its value.
use avault.Prelude.{
  ℕ, zero, suc, ◌+◌, ◌≤◌, ◌<◌, ◌≡◌, refl, sym, ap, ◌∙◌, true, false, List, [], ◌∷◌, ◌++◌, arith,
  ◌==◌, length, drop, all, drop-append, All,
}
use avault.Prelude.Bytes.{Bytes, starts_with}
use avault.Prelude.Result.{ok}
use avault.Json.{max_stdin_secret_bytes}
use avault.Json.Strings.{decode_json_string_bytes, json_string_end}
use avault.Json.Values.{is_json_ws, end_while, skip_json_ws}
use avault.Json.Fields.{next_is, field_key}
use avault.Json.Spelling.{Piece, IsPiece, meanings, print_string}
use avault.Json.StringEnds.{json_string_end-print_string}
use avault.Json.Decode.{decode_json_string_bytes-print_string}
use avault.Json.Ends.{passes, end_while-all, end_while-stops}
use native.Mathlib.Nat.{zero-add}
use Prim.Native.Nat.add

drop-nil {ℓ} : {A : Type ℓ} (j : ℕ) → drop {A = A} j [] ≡ []
drop-nil zero = refl
drop-nil (suc j) = refl

drop-drop {ℓ} : {A : Type ℓ} (i j : ℕ) (xs : List A) → drop j (drop i xs) ≡ drop (i + j) xs
drop-drop zero j xs = rw zero-add refl
drop-drop (suc i) j [] = drop-nil j ∙ sym (drop-nil (suc i + j))
drop-drop (suc i) j (x ∷ xs) = rw (add.suc i j) (drop-drop i j xs)

pub drop-past :
    (input : Bytes) (i : ℕ) (xs more : Bytes)
    → drop i input ≡ xs ++ more
    → drop (i + length xs) input ≡ more
drop-past input i xs more h =
    sym (drop-drop i (length xs) input) ∙ ap (drop (length xs)) h ∙ drop-append xs more

pub skip_json_ws-past :
    (input : Bytes) (i : ℕ) (xs more : Bytes)
    → drop i input ≡ xs ++ more
    → all is_json_ws xs ≡ true
    → passes is_json_ws more ≡ false
    → skip_json_ws input i ≡ i + length xs
skip_json_ws-past input i xs more h s p =
    ap (λ zs. end_while is_json_ws zs i) h
    ∙ end_while-all is_json_ws xs more i s
    ∙ end_while-stops is_json_ws more (i + length xs) p

pub next_is-here :
    (input : Bytes) (i c : ℕ) (more : Bytes) (byte : ℕ)
    → drop i input ≡ c ∷ more
    → next_is input i byte ≡ (c == byte)
next_is-here input i c more byte h = rw h (unfold starts_with in ground arith)

pub quote_first :
    (k : List Piece) (more : Bytes) → (body : Bytes) × (print_string k ++ more ≡ b'"' ∷ body)
unfolding print_string
quote_first k more = (_, refl)

key_read :
    (k : List Piece) (more : Bytes)
    → All IsPiece k
    → length (meanings k) ≤ max_stdin_secret_bytes
    → decode_json_string_bytes (print_string k ++ more) ≡ ok (meanings k)
key_read k more h fit = ground (arith, (decode_json_string_bytes-print_string k more h).0)

module _ (ws : Bytes) (ws-Space : all is_json_ws ws ≡ true) where
  pub field_key-print :
      (input : Bytes) (i : ℕ) (k : List Piece) (more : Bytes)
      → drop i input ≡ ws ++ (print_string k ++ (ws ++ (b':' ∷ (ws ++ more))))
      → All IsPiece k
      → length (meanings k) ≤ max_stdin_secret_bytes
      → passes is_json_ws more ≡ false
      → (j : ℕ) × (field_key input i ≡ ok (meanings k, j)) × (drop j input ≡ more) × (i < j)
  unfolding field_key
  field_key-print input i k more h hk fit p =
      let colon_text = b':' ∷ (ws ++ more) in
      let tail = ws ++ colon_text in
      let (body, q) = quote_first k tail in
      let index = i + length ws in
      let size = length (print_string k) in
      let not_space : passes is_json_ws (print_string k ++ tail) ≡ false = rw q refl in
      let d₁ = drop-past input i ws (print_string k ++ tail) h in
      let e₁ = skip_json_ws-past input i ws (print_string k ++ tail) h ws-Space not_space in
      let d₂ = drop-past input index (print_string k) tail d₁ in
      let swap : size + index ≡ index + size = omega arith in
      let colon = index + size + length ws in
      let e₂ = skip_json_ws-past input (index + size) ws colon_text d₂ ws-Space refl in
      let d₃ = drop-past input (index + size) ws colon_text d₂ in
      let d₄ = drop-past input colon (b':' ∷ []) (ws ++ more) d₃ in
      let e₃ = skip_json_ws-past input (colon + 1) ws more d₄ ws-Space p in
      let d₅ = drop-past input (colon + 1) ws more d₄ in
      let open_brace = next_is-here input index b'"' body b'}' (d₁ ∙ q) in
      let is_quote = next_is-here input index b'"' body b'"' (d₁ ∙ q) in
      let is_colon = next_is-here input colon b':' (ws ++ more) b':' d₃ in
      let decoded = ap decode_json_string_bytes d₁ ∙ key_read k tail hk fit in
      let ended = ap json_string_end d₁ ∙ json_string_end-print_string k tail hk in
      (
        colon + 1 + length ws,
        rw (e₁, open_brace, is_quote, decoded, ended, swap, e₂, is_colon, e₃) refl,
        d₅,
        omega arith,
      )
