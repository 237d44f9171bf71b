-- ===== src/Prelude/Text.antt =====
-- Text as its UTF-8 bytes: `str::trim`, and `to_string` of a `u64`.
use Prim.Native.Nat.{ℕ, zero, suc, ◌+◌, ◌/◌, ◌%◌}
use mathlib.Core.Bool.{Bool, true, false, ◌&&◌, ◌||◌}
use mathlib.Core.List.{[], ◌∷◌, ◌++◌}
use mathlib.Core.Option.{Option, none, some}
use avault.Prelude.Tests.{◌==◌, if◌then◌else◌, within, ltb}
use avault.Prelude.Lists.{length}
use avault.Prelude.Bytes.{Bytes}

-- The encodings of the characters that `trim` removes.
abbrev pub is_space : ℕ → Bool
is_space c = within 9 13 c || c == 32

abbrev pub in_general : ℕ → Bool
in_general c = within 128 138 c || c == 168 || c == 169 || c == 175

-- The text after one white space, if one stands in front.
abbrev pub strip_space : Bytes → Option Bytes
strip_space [] = none
strip_space (x ∷ []) = if is_space x then some [] else none
strip_space (x ∷ y ∷ []) =
    if is_space x
    then some (y ∷ [])
    else if x == 194 && (y == 133 || y == 160)
    then some []
    else none
strip_space (x ∷ y ∷ z ∷ xs) =
    if is_space x
    then some (y ∷ z ∷ xs)
    else if x == 194 && (y == 133 || y == 160)
    then some (z ∷ xs)
    else if (x == 225 && y == 154 && z == 128)
        || (x == 226 && y == 128 && in_general z)
        || (x == 226 && y == 129 && z == 159)
        || (x == 227 && y == 128 && z == 128)
    then some xs
    else none

-- `fuel` is at least the length.
unfoldable pub trim_start : ℕ → Bytes → Bytes
trim_start zero xs = xs
trim_start (suc fuel) xs = elim (strip_space xs) [ none ↦ xs | some rest ↦ trim_start fuel rest ]

abbrev pub is_nil : Bytes → Bool
is_nil [] = true
is_nil (x ∷ xs) = false

unfoldable pub trim_end : Bytes → Bytes
trim_end [] = []
trim_end (x ∷ xs) =
    let rest = trim_end xs in
    if is_nil (trim_start (length (x ∷ xs)) (x ∷ xs)) then [] else x ∷ rest

unfoldable pub trim : Bytes → Bytes
trim text = trim_end (trim_start (length text) text)

-- `u64::to_string`, which has at most 20 digits.
unfoldable pub digits : ℕ → ℕ → Bytes
digits zero n = []
digits (suc fuel) n =
    let front = digits fuel (n / 10) in
    if ltb n 10 then (48 + n) ∷ [] else front ++ (48 + n % 10) ∷ []

abbrev pub to_string : ℕ → Bytes
to_string n = digits 20 n
