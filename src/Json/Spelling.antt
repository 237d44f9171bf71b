-- ===== src/Json/Spelling.antt =====
-- The spellings of a JSON string, and the bytes that each stands for.
use avault.Prelude.{
  ℕ, ◌+◌, ◌-◌, ◌/◌, ◌%◌, ◌≤◌, ◌<◌, ◌≢◌, ◌⊎◌, Bool, List, [], ◌∷◌, ◌++◌, ltb, if◌then◌else◌,
}
use avault.Prelude.Bytes.{Bytes}
use avault.Json.Strings.{encode_utf8}

pub data Short : Type 0 where
  quote backslash slash backspace form_feed newline return tab : Short

-- Which of four digits are in upper case.
pub record Cases : Type 0 where
  pub first : Bool
  pub second : Bool
  pub third : Bool
  pub fourth : Bool

-- A byte that stands for itself, a short escape, or a scalar value by its code, with the cases of the
-- digits of its four, or of its two surrogates.
pub data Piece : Type 0 where
  plain : ℕ → Piece
  short : Short → Piece
  unicode : Cases → Cases → ℕ → Piece

abbrev pub letter : Short → ℕ
letter quote = b'"'
letter backslash = b'\\'
letter slash = b'/'
letter backspace = b'b'
letter form_feed = b'f'
letter newline = b'n'
letter return = b'r'
letter tab = b't'

abbrev pub control : Short → ℕ
control quote = 34
control backslash = 92
control slash = 47
control backspace = 8
control form_feed = 12
control newline = 10
control return = 13
control tab = 9

abbrev pub hex_char : Bool → ℕ → ℕ
hex_char upper n = if ltb n 10 then 48 + n else if upper then 55 + n else 87 + n

abbrev pub quad : Cases → ℕ → Bytes
quad u n =
    hex_char u.first (n / 4096)
    ∷ hex_char u.second (n / 256 % 16)
    ∷ hex_char u.third (n / 16 % 16)
    ∷ hex_char u.fourth (n % 16)
    ∷ []

-- The code of a scalar value after `\u`; above the first plane, the surrogate pair.
unfoldable pub unicode_code : Cases → Cases → ℕ → Bytes
unicode_code u w c =
    if ltb c 0x10000
    then quad u c
    else quad u (0xD800 + (c - 0x10000) / 1024)
      ++ b'\\' ∷ b'u' ∷ quad w (0xDC00 + (c - 0x10000) % 1024)

unfoldable pub print_piece : Piece → Bytes
print_piece (plain c) = c ∷ []
print_piece (short s) = b'\\' ∷ letter s ∷ []
print_piece (unicode u w c) = b'\\' ∷ b'u' ∷ unicode_code u w c

unfoldable pub meaning : Piece → Bytes
meaning (plain c) = c ∷ []
meaning (short s) = control s ∷ []
meaning (unicode u w c) = encode_utf8 c

abbrev pub IsScalar : ℕ → Type 0
IsScalar c = (c < 0xD800) ⊎ ((0xDFFF < c) × (c < 0x110000))

abbrev pub IsPiece : Piece → Type 0
IsPiece (plain c) = (32 ≤ c) × (c ≢ b'"') × (c ≢ b'\\')
IsPiece (short s) = Unit
IsPiece (unicode u w c) = IsScalar c

unfoldable pub print_pieces : List Piece → Bytes
print_pieces [] = []
print_pieces (p ∷ ps) = print_piece p ++ print_pieces ps

unfoldable pub meanings : List Piece → Bytes
meanings [] = []
meanings (p ∷ ps) = meaning p ++ meanings ps

unfoldable pub print_string : List Piece → Bytes
print_string ps = b'"' ∷ (print_pieces ps ++ b'"' ∷ [])
