-- ===== src/Json/StringEnds.antt =====
-- The scanner finds the end of every spelling of a JSON string.
use avault.Prelude.{
  ℕ, ◌+◌, ◌-◌, ◌/◌, ◌%◌, ◌≤◌, ◌<◌, ◌≡◌, refl, ap, ◌∙◌, ◌≢◌, inl, inr, Bool, true, false, List, [],
  ◌∷◌, ◌++◌, append_assoc, arith, ltb, ◌==◌, Bool-cases, length, length-append, All,
}
use avault.Prelude.Bytes.{Bytes, starts_with}
use avault.Prelude.Result.{ok}
use native.Mathlib.Nat.{add-zero}
use avault.Json.Strings.{string_end_from, json_string_end}
use avault.Json.Spelling.{
  Cases, hex_char, IsPiece, IsScalar, Piece, letter, plain, print_piece, print_pieces, print_string,
  quad, short, unicode, unicode_code,
}

-- plain bytes move the scanner on by their number
abbrev IsPlain : ℕ → Type 0
IsPlain c = (32 ≤ c) × (c ≢ b'"') × (c ≢ b'\\')

string_end_from-plain :
    (xs rest : Bytes) (i : ℕ)
    → All IsPlain xs
    → string_end_from false (xs ++ rest) i ≡ string_end_from false rest (i + length xs)
unfolding string_end_from
string_end_from-plain [] rest i h = rw add-zero refl
string_end_from-plain (x ∷ xs) rest i ((h, q, b), hs) =
    let q' : (x == b'"') ≡ false = ground arith in
    let b' : (x == b'\\') ≡ false = ground arith in
    let h' : ltb x 32 ≡ false = ground arith in
    rw (q', b', h', string_end_from)
      (rw b'
        (string_end_from-plain xs rest (i + 1) hs ∙ ap (string_end_from false rest) (omega arith)))

hex_char-IsPlain : (u : Bool) (n : ℕ) → n < 16 → IsPlain (hex_char u n)
hex_char-IsPlain true n h = ground arith
hex_char-IsPlain false n h = ground arith

quad-IsPlain : (u : Cases) (n : ℕ) → n < 65536 → All IsPlain (quad u n)
quad-IsPlain u n h = (
  hex_char-IsPlain u.first (n / 4096) (omega arith),
  (
    hex_char-IsPlain u.second (n / 256 % 16) (omega arith),
    (
      hex_char-IsPlain u.third (n / 16 % 16) (omega arith),
      (hex_char-IsPlain u.fourth (n % 16) (omega arith), tt),
    ),
  ),
)

string_end_from-escaped :
    (byte : ℕ) (rest : Bytes) (i : ℕ)
    → string_end_from false (b'\\' ∷ byte ∷ rest) i ≡ string_end_from false rest (i + 2)
unfolding string_end_from
string_end_from-escaped byte rest i = ap (string_end_from false rest) (omega arith)

string_end_from-unicode_code :
    (u w : Cases) (c : ℕ) (rest : Bytes) (i : ℕ)
    → IsScalar c
    → string_end_from false (unicode_code u w c ++ rest) i
      ≡ string_end_from false rest (i + length (unicode_code u w c))
unfolding unicode_code
string_end_from-unicode_code u w c rest i h = elim (Bool-cases (ltb c 0x10000)) [
  | inl e ↦ rw e (string_end_from-plain (quad u c) rest i (quad-IsPlain u c (ground arith)))
  | inr e ↦
      let x = c - 0x10000 in
      let first = quad u (0xD800 + x / 1024) in
      let second = quad w (0xDC00 + x % 1024) in
      rw e (
        string_end_from-plain first (b'\\' ∷ b'u' ∷ (second ++ rest)) i
          (quad-IsPlain u (0xD800 + x / 1024) (ground arith))
        ∙ string_end_from-escaped b'u' (second ++ rest) (i + 4)
        ∙ string_end_from-plain second rest (i + 4 + 2)
            (quad-IsPlain w (0xDC00 + x % 1024) (ground arith))
        ∙ ap (string_end_from false rest) (omega arith))
]

string_end_from-Piece :
    (p : Piece) (rest : Bytes) (i : ℕ)
    → IsPiece p
    → string_end_from false (print_piece p ++ rest) i
      ≡ string_end_from false rest (i + length (print_piece p))
unfolding print_piece
string_end_from-Piece (plain c) rest i h = string_end_from-plain (c ∷ []) rest i (h, tt)
string_end_from-Piece (short s) rest i h = string_end_from-escaped (letter s) rest i
string_end_from-Piece (unicode u w c) rest i h =
    string_end_from-escaped b'u' (unicode_code u w c ++ rest) i
    ∙ string_end_from-unicode_code u w c rest (i + 2) h
    ∙ ap (string_end_from false rest) (omega arith)

string_end_from-print_pieces :
    (ps : List Piece) (rest : Bytes) (i : ℕ)
    → All IsPiece ps
    → string_end_from false (print_pieces ps ++ b'"' ∷ rest) i
      ≡ ok (i + length (print_pieces ps) + 1)
unfolding print_pieces
string_end_from-print_pieces [] rest i h = unfold string_end_from in ap ok (omega arith)
string_end_from-print_pieces (p ∷ ps) rest i (h, hs) =
    rw (append_assoc (print_piece p) (print_pieces ps) (b'"' ∷ rest)) (
      string_end_from-Piece p (print_pieces ps ++ b'"' ∷ rest) i h
      ∙ string_end_from-print_pieces ps rest (i + length (print_piece p)) hs
      ∙ ap ok (omega (arith, length-append {0} (print_piece p) (print_pieces ps))))

pub json_string_end-print_string :
    (ps : List Piece) (rest : Bytes)
    → All IsPiece ps
    → json_string_end (print_string ps ++ rest) ≡ ok (length (print_string ps))
unfolding json_string_end print_string starts_with
json_string_end-print_string ps rest h = rw (append_assoc (print_pieces ps) (b'"' ∷ []) rest) (
    string_end_from-print_pieces ps rest 1 h
    ∙ ap ok (omega (arith, length-append {0} (print_pieces ps) (b'"' ∷ []))))
