-- ===== src/Json/Ends.antt =====
-- `json_value_end` finds the end of every value.
use avault.Prelude.{
  ℕ, suc, ◌+◌, ◌≡◌, refl, ap, ◌∙◌, Bool, true, false, ◌||◌, List, [], ◌∷◌, ◌++◌, arith, ◌==◌,
  length, all, All,
}
use avault.Prelude.Bytes.{Bytes, starts_with, is_digit}
use avault.Prelude.Result.{ok}
use avault.Json.Values.{is_scalar_byte, is_json_ws, end_while, value_end}
use avault.Json.Spelling.{Piece, IsPiece, print_string}
use avault.Json.StringEnds.{json_string_end-print_string}
use avault.Json.Tree.{
  Json, null, boolean, number, string, array, object, print, print_items, print_members, IsJson,
}
use avault.Json.Skip.{compound_end-brackets, print_items-Steps, print_members-Steps}
use native.Mathlib.Nat.{add-zero}

pub end_while-all :
    (p : ℕ → Bool) (xs rest : Bytes) (i : ℕ)
    → all p xs ≡ true
    → end_while p (xs ++ rest) i ≡ end_while p rest (i + length xs)
unfolding end_while
end_while-all p [] rest i h = rw add-zero refl
end_while-all p (x ∷ xs) rest i h =
    let px : p x ≡ true = ground arith in
    rw (px, end_while)
      (end_while-all p xs rest (i + 1) (ground arith) ∙ ap (end_while p rest) (omega arith))

-- The test does not pass the next byte.
abbrev pub passes : (ℕ → Bool) → Bytes → Bool
passes p [] = false
passes p (c ∷ rest) = p c

pub end_while-stops :
    (p : ℕ → Bool) (rest : Bytes) (i : ℕ) → passes p rest ≡ false → end_while p rest i ≡ i
unfolding end_while
end_while-stops p [] i h = refl
end_while-stops p (c ∷ rest) i h = rw (h, end_while) refl

number_end :
    (c : ℕ) (cs rest : Bytes) (i : ℕ)
    → (c == b'-' || is_digit c) ≡ true
    → value_end (c ∷ (cs ++ rest)) i ≡ ok (end_while is_scalar_byte (c ∷ (cs ++ rest)) i)
unfolding value_end
number_end c cs rest i h = ground arith

string_value_end :
    (ps : List Piece) (rest : Bytes) (i : ℕ)
    → All IsPiece ps
    → value_end (print_string ps ++ rest) i ≡ ok (i + length (print_string ps))
unfolding value_end print_string
string_value_end ps rest i h = rw (json_string_end-print_string ps rest h) refl

module _ (ws : Bytes) (ws-Space : all is_json_ws ws ≡ true) where
  -- The scanner finds the end of the text of a value before a byte that is no part of a scalar.
  pub value_end-print :
      (v : Json) (rest : Bytes) (i : ℕ)
      → IsJson v
      → passes is_scalar_byte rest ≡ false
      → value_end (print ws v ++ rest) i ≡ ok (i + length (print ws v))
  unfolding print value_end starts_with
  value_end-print null rest i h f = refl
  value_end-print (boolean true) rest i h f = refl
  value_end-print (boolean false) rest i h f = refl
  value_end-print (number []) rest i h f = absurd h
  value_end-print (number (c ∷ cs)) rest i (h, hs) f =
      let scalars : all is_scalar_byte (c ∷ cs) ≡ true = ground arith in
      number_end c cs rest i h
      ∙ ap ok (
          end_while-all is_scalar_byte (c ∷ cs) rest i scalars
          ∙ end_while-stops is_scalar_byte rest (i + suc (length cs)) f)
  value_end-print (string ps) rest i h f = string_value_end ps rest i h
  value_end-print (array xs) rest i h f =
      compound_end-brackets b'[' (print_items ws true xs) rest i refl
        (print_items-Steps ws ws-Space true xs h)
  value_end-print (object ms) rest i h f =
      compound_end-brackets b'{' (print_members ws true ms) rest i refl
        (print_members-Steps ws ws-Space true ms h)
