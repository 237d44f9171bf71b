-- ===== src/Wire/Input/Line.antt =====
-- `read_passphrase_line` reads one line and leaves the rest for the next reader.
use avault.Prelude.{
  ℕ, zero, suc, ◌+◌, ◌≤◌, ◌<◌, ◌≡◌, refl, sym, ap, ◌∙◌, ◌⊎◌, inl, inr, true, false, Option, some,
  List, [], ◌∷◌, ◌++◌, append_assoc, append-nil, arith, ltb, leb, ◌==◌, if◌then◌else◌, Bool-cases,
  length, length-append,
}
use avault.Prelude.Bytes.{Bytes}
use avault.Prelude.Result.{Result, ok, err}
use avault.Wire.{ReadEvent}
use avault.Wire.Delivery.{payload}
use avault.Wire.Input.{
  InputError, passphrase_too_large, max_stdin_passphrase_bytes, Reading, pop_return, checked_line,
  next_byte, line_rounds, read_passphrase_line,
}
use avault.Wire.Input.Whole.{IsQuiet, read_call-IsQuiet}

-- The bytes before the first line feed, and those after it.
unfoldable pub line_of : Bytes → Bytes
line_of [] = []
line_of (b ∷ bytes) = let rest = line_of bytes in if b == 10 then [] else b ∷ rest

unfoldable pub after_line : Bytes → Bytes
after_line [] = []
after_line (b ∷ bytes) = let rest = after_line bytes in if b == 10 then bytes else rest

abbrev pub limited_line : Bytes → Result InputError Bytes
limited_line line =
    if ltb (length line) max_stdin_passphrase_bytes
    then checked_line (pop_return line)
    else err passphrase_too_large

-- The line is the result, and what comes after it is left, if it is not too long.
abbrev pub ReadsLine : Option Reading → Bytes → Bytes → Type 0
ReadsLine r line rest =
    (left : List ReadEvent) × (r ≡ some (limited_line line, left))
    × (length line < max_stdin_passphrase_bytes → (payload left ≡ rest) × IsQuiet left)

abbrev Later : (List ReadEvent → Bytes → Option Reading) → ℕ → Type 0
Later round fuel =
    (events : List ReadEvent) (out : Bytes)
    → IsQuiet events
    → length out ≤ max_stdin_passphrase_bytes
    → max_stdin_passphrase_bytes < fuel + length out
    → ReadsLine (round events out) (out ++ line_of (payload events)) (after_line (payload events))

line_now :
    (out : Bytes)
    → length out < max_stdin_passphrase_bytes
    → limited_line out ≡ checked_line (pop_return out)
line_now out h =
    let e : ltb (length out) max_stdin_passphrase_bytes ≡ true = ground arith in rw e refl

next_byte-ReadsLine :
    (round : List ReadEvent → Bytes → Option Reading) (fuel : ℕ) (events left : List ReadEvent)
    (out chunk : Bytes)
    → Later round fuel
    → payload events ≡ chunk ++ payload left
    → IsQuiet left
    → length chunk ≤ 1
    → (payload events ≡ []) ⊎ (0 < length chunk)
    → length out < max_stdin_passphrase_bytes
    → max_stdin_passphrase_bytes < suc fuel + length out
    → ReadsLine
        (next_byte round out (ok chunk, left))
        (out ++ line_of (payload events))
        (after_line (payload events))
unfolding line_of after_line
next_byte-ReadsLine round fuel events left out (b ∷ c ∷ chunk) later p q s z l f =
    absurd (omega arith)
next_byte-ReadsLine round fuel events left out [] later p q s (inr z) l f = absurd (omega arith)
next_byte-ReadsLine round fuel events left out [] later p q s (inl z) l f =
    rw (z, append-nil) (left, ap (λ r. some (r, left)) (sym (line_now out l)), λ _. (sym p ∙ z, q))
next_byte-ReadsLine round fuel events left out (b ∷ []) later p q s z l f =
    elim (Bool-cases (b == 10)) [
      | inl e ↦
          let step : next_byte round out (ok (b ∷ []), left) ≡ some (limited_line out, left) =
            rw (e, next_byte) (ap (λ r. some (r, left)) (sym (line_now out l))) in
          rw (p, e, append-nil) (left, step, λ _. (refl, q))
      | inr e ↦
          let size = length-append {0} out (b ∷ []) in
          let (last, r, rest) =
            later left (out ++ b ∷ []) q (omega (arith, size)) (omega (arith, size)) in
          let step : next_byte round out (ok (b ∷ []), left) ≡ round left (out ++ b ∷ []) =
            rw (e, next_byte) refl in
          rw (step, p, e, sym (append_assoc out (b ∷ []) (line_of (payload left)))) (last, r, rest)
    ]

line_rounds-ReadsLine : (fuel : ℕ) → Later (line_rounds fuel) fuel
unfolding line_rounds
line_rounds-ReadsLine zero events out h l f = absurd (omega arith)
line_rounds-ReadsLine (suc fuel) events out h l f =
    elim (Bool-cases (leb max_stdin_passphrase_bytes (length out))) [
      | inl e ↦
          let size = length-append {0} out (line_of (payload events)) in
          let over : ltb (length (out ++ line_of (payload events))) max_stdin_passphrase_bytes
              ≡ false =
            ground (arith, size) in
          (events, rw (e, over) refl, λ s. absurd (ground (arith, size)))
      | inr e ↦
          let (chunk, left, r, p, q, s, z) = read_call-IsQuiet events 1 h (omega arith) in
          rw (e, r)
            (next_byte-ReadsLine (line_rounds fuel) fuel events left out chunk
              (line_rounds-ReadsLine fuel) p q s z (ground arith) f)
    ]

-- The passphrase is the first line of the input, less one carriage return at its end, and is
-- refused if it is empty or has 65536 bytes or more; a line that is not too long is taken with its
-- line feed, and all that follows is left for the next reader, however the input is cut.
pub read_passphrase_line-ReadsLine :
    (events : List ReadEvent)
    → IsQuiet events
    → ReadsLine
        (read_passphrase_line events)
        (line_of (payload events))
        (after_line (payload events))
read_passphrase_line-ReadsLine events h =
    line_rounds-ReadsLine (suc max_stdin_passphrase_bytes) events [] h (omega arith) (omega arith)
