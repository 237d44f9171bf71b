-- ===== src/Json/Decode.antt =====
-- Every spelling of a JSON string: the decoder gives the bytes that it stands for, and the scanner
-- finds its end.
use avault.Prelude.{
  ℕ, ◌+◌, ◌-◌, ◌*◌, ◌/◌, ◌%◌, ◌≤◌, ◌<◌, ◌≡◌, refl, ap, ◌∙◌, inl, inr, Bool, true, false, List, [],
  ◌∷◌, ◌++◌, append_assoc, append-nil, arith, ltb, leb, ◌==◌, if◌then◌else◌, within, Bool-cases,
  length, drop, length-append, All,
}
use avault.Prelude.Bytes.{Bytes, starts_with}
use avault.Prelude.Result.{Result, ok, err, ◌>>◌, bail_if}
use avault.Json.{JsonError, too_large, max_stdin_secret_bytes}
use avault.Json.Strings.{
  hex_value, decode_hex_quad, from_u32, decode_json_unicode_escape, escape_piece, string_piece,
  decode_from, decode_json_string_bytes, json_string_end,
}
use avault.Json.Spelling.{
  Cases, IsPiece, IsScalar, Piece, Short, backslash, backspace, control, form_feed, hex_char,
  letter, meaning, meanings, newline, plain, print_piece, print_pieces, print_string, quad, quote,
  return, short, slash, tab, unicode, unicode_code,
}
use avault.Json.StringEnds.{json_string_end-print_string}

hex_value-hex_char : (u : Bool) (n : ℕ) → n < 16 → hex_value (hex_char u n) ≡ ok n
unfolding hex_value
hex_value-hex_char true n h = ground arith
hex_value-hex_char false n h = ground arith

decode_hex_quad-quad :
    (u : Cases) (n : ℕ) (rest : Bytes) → n < 65536 → decode_hex_quad (quad u n ++ rest) ≡ ok n
unfolding decode_hex_quad
decode_hex_quad-quad u n rest h =
    rw
      (
        hex_value-hex_char u.first (n / 4096) (omega arith),
        hex_value-hex_char u.second (n / 256 % 16) (omega arith),
        hex_value-hex_char u.third (n / 16 % 16) (omega arith),
        hex_value-hex_char u.fourth (n % 16) (omega arith),
      )
      (ap ok (omega arith))

length-unicode_code :
    (u w : Cases) (c : ℕ) → length (unicode_code u w c) ≡ (if ltb c 0x10000 then 4 else 10)
unfolding unicode_code starts_with
length-unicode_code u w c = ground arith

escape-low :
    (input : Bytes) (n : ℕ)
    → decode_hex_quad input ≡ ok n
    → IsScalar n
    → n < 65536
    → decode_json_unicode_escape input ≡ ok (n, 4)
unfolding decode_json_unicode_escape from_u32
escape-low input n e h l = rw e (ground arith)

escape-high :
    (input : Bytes) (x : ℕ)
    → decode_hex_quad input ≡ ok (0xD800 + x / 1024)
    → starts_with (drop 4 input) (b'\\' ∷ b'u' ∷ []) ≡ true
    → decode_hex_quad (drop 6 input) ≡ ok (0xDC00 + x % 1024)
    → x < 0x100000
    → decode_json_unicode_escape input ≡ ok (0x10000 + x, 10)
unfolding decode_json_unicode_escape from_u32
escape-high input x e s f l =
    let hi : within 0xD800 0xDBFF (0xD800 + x / 1024) ≡ true = ground arith in
    let lo : within 0xDC00 0xDFFF (0xDC00 + x % 1024) ≡ true = ground arith in
    let sum : 0x10000 + (0xD800 + x / 1024 - 0xD800) * 1024 + (0xDC00 + x % 1024 - 0xDC00)
        ≡ 0x10000 + x =
      omega arith in
    rw (e, hi, s, f, lo, sum) (ground arith)

-- Each scalar value is read back from its code.
pub decode_json_unicode_escape-unicode_code :
    (u w : Cases) (c : ℕ) (rest : Bytes)
    → IsScalar c
    → decode_json_unicode_escape (unicode_code u w c ++ rest) ≡ ok (c, length (unicode_code u w c))
unfolding unicode_code starts_with
decode_json_unicode_escape-unicode_code u w c rest h = elim (Bool-cases (ltb c 0x10000)) [
  | inl e ↦ rw e (
      escape-low (quad u c ++ rest) c (decode_hex_quad-quad u c rest (ground arith)) h
        (ground arith))
  | inr e ↦
      let x = c - 0x10000 in
      let first = quad u (0xD800 + x / 1024) in
      let second = quad w (0xDC00 + x % 1024) in
      let sum : 0x10000 + x ≡ c = ground arith in
      rw e (
        escape-high (first ++ (b'\\' ∷ b'u' ∷ (second ++ rest))) x
          (decode_hex_quad-quad u (0xD800 + x / 1024) (b'\\' ∷ b'u' ∷ (second ++ rest))
            (ground arith))
          refl (decode_hex_quad-quad w (0xDC00 + x % 1024) rest (ground arith)) (ground arith)
        ∙ rw sum refl)
]

abbrev head_byte : Piece → ℕ
head_byte (plain c) = c
head_byte (short s) = b'\\'
head_byte (unicode u w c) = b'\\'

abbrev tail_bytes : Piece → Bytes
tail_bytes (plain c) = []
tail_bytes (short s) = letter s ∷ []
tail_bytes (unicode u w c) = b'u' ∷ unicode_code u w c

print_piece-parts : (p : Piece) → print_piece p ≡ head_byte p ∷ tail_bytes p
unfolding print_piece
print_piece-parts (plain c) = refl
print_piece-parts (short s) = refl
print_piece-parts (unicode u w c) = refl

head_byte-not_quote : (p : Piece) → IsPiece p → (head_byte p == b'"') ≡ false
head_byte-not_quote (plain c) h = ground arith
head_byte-not_quote (short s) h = refl
head_byte-not_quote (unicode u w c) h = refl

escape_piece-short :
    (s : Short) (rest : Bytes) → escape_piece (letter s ∷ rest) ≡ ok (control s ∷ [], 1)
unfolding escape_piece
escape_piece-short quote rest = refl
escape_piece-short backslash rest = refl
escape_piece-short slash rest = refl
escape_piece-short backspace rest = refl
escape_piece-short form_feed rest = refl
escape_piece-short newline rest = refl
escape_piece-short return rest = refl
escape_piece-short tab rest = refl

string_piece-Piece :
    (p : Piece) (rest : Bytes)
    → IsPiece p
    → string_piece (head_byte p) (tail_bytes p ++ rest) ≡ ok (meaning p, length (tail_bytes p))
unfolding string_piece meaning
string_piece-Piece (plain c) rest h = ground arith
string_piece-Piece (short s) rest h = escape_piece-short s rest
string_piece-Piece (unicode u w c) rest h =
    unfold escape_piece in rw (decode_json_unicode_escape-unicode_code u w c rest h) refl

decode_from-skip :
    (xs rest out : Bytes) → decode_from (length xs) (xs ++ rest) out ≡ decode_from 0 rest out
unfolding decode_from
decode_from-skip [] rest out = refl
decode_from-skip (x ∷ xs) rest out = decode_from-skip xs rest out

decode_from-step :
    (byte : ℕ) (xs rest out pushed : Bytes)
    → (byte == b'"') ≡ false
    → string_piece byte (xs ++ rest) ≡ ok (pushed, length xs)
    → decode_from 0 (byte ∷ (xs ++ rest)) out ≡ (
        bail_if (ltb max_stdin_secret_bytes (length (out ++ pushed))) too_large
        >> decode_from 0 rest (out ++ pushed))
unfolding decode_from
decode_from-step byte xs rest out pushed q e =
    rw (q, decode_from) (rw (e, decode_from-skip xs rest (out ++ pushed)) refl)

abbrev pub limited : Bytes → Result JsonError Bytes
limited text = if leb (length text) max_stdin_secret_bytes then ok text else err too_large

decode_from-print_pieces :
    (ps : List Piece) (rest out : Bytes)
    → All IsPiece ps
    → length out ≤ max_stdin_secret_bytes
    → decode_from 0 (print_pieces ps ++ b'"' ∷ rest) out ≡ limited (out ++ meanings ps)
unfolding print_pieces meanings
decode_from-print_pieces [] rest out h l = unfold decode_from in rw append-nil (ground arith)
decode_from-print_pieces (p ∷ ps) rest out (h, hs) l =
    let more = print_pieces ps ++ b'"' ∷ rest in
    let step =
      decode_from-step (head_byte p) (tail_bytes p) more out (meaning p) (head_byte-not_quote p h)
        (string_piece-Piece p more h) in
    rw (append_assoc (print_piece p) (print_pieces ps) (b'"' ∷ rest), print_piece-parts p, step)
      (ground (
        arith,
        decode_from-print_pieces ps rest (out ++ meaning p) hs,
        append_assoc out (meaning p) (meanings ps),
        length-append {0} (out ++ meaning p) (meanings ps),
      ))

-- Each spelling of a JSON string, with short escapes and with scalar values written by their code
-- in hex digits of either case each, above the first plane as surrogate pairs, is decoded into the
-- UTF-8 bytes that it stands for, or refused where these exceed the limit, and its end is found,
-- whatever follows.
pub decode_json_string_bytes-print_string :
    (ps : List Piece) (rest : Bytes)
    → All IsPiece ps
    → (decode_json_string_bytes (print_string ps ++ rest) ≡ limited (meanings ps))
      × (json_string_end (print_string ps ++ rest) ≡ ok (length (print_string ps)))
unfolding decode_json_string_bytes print_string starts_with decode_from
decode_json_string_bytes-print_string ps rest h = (
  rw (append_assoc (print_pieces ps) (b'"' ∷ []) rest)
      (decode_from-print_pieces ps rest [] h (omega arith)),
  json_string_end-print_string ps rest h,
)
