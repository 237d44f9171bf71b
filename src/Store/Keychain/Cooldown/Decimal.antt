-- ===== src/Store/Keychain/Cooldown/Decimal.antt =====
-- A printed number of the cooldown record is read back.
use avault.Prelude.{
  ℕ, zero, suc, ◌+◌, ◌/◌, ◌%◌, ◌^◌, ◌≤◌, ◌<◌, ◌≡◌, refl, sym, ap, ◌∙◌, inl, inr, true, false, none,
  some, [], ◌∷◌, ◌++◌, append_assoc, append-nil, arith, ltb, Bool-cases, length, length-append, All,
}
use avault.Prelude.Bytes.{Bytes, is_digit}
use avault.Prelude.Text.{strip_space, trim_start, trim_end, trim, digits, to_string}
use avault.Store.Keychain.Cooldown.{u64_end, parse_digits, parse_u64}

abbrev pub IsDigits : Bytes → Type 0
IsDigits = All (λ c. is_digit c ≡ true)

IsDigits-append : (xs : Bytes) (c : ℕ) → IsDigits xs → is_digit c ≡ true → IsDigits (xs ++ c ∷ [])
IsDigits-append [] c h d = (d, tt)
IsDigits-append (x ∷ xs) c (h, hs) d = (h, IsDigits-append xs c hs d)

digits-IsDigits : (fuel n : ℕ) → IsDigits (digits fuel n)
unfolding digits
digits-IsDigits zero n = tt
digits-IsDigits (suc fuel) n = elim (Bool-cases (ltb n 10)) [
  | inl e ↦ rw e (ground arith, tt)
  | inr e ↦ rw e (
      IsDigits-append (digits fuel (n / 10)) (48 + n % 10) (digits-IsDigits fuel (n / 10))
        (ground arith))
]

strip_space-digit : (c : ℕ) (cs : Bytes) → is_digit c ≡ true → strip_space (c ∷ cs) ≡ none
strip_space-digit c [] h = ground arith
strip_space-digit c (y ∷ []) h = ground arith
strip_space-digit c (y ∷ z ∷ cs) h = ground arith

trim_start-digits : (fuel : ℕ) (xs : Bytes) → IsDigits xs → trim_start fuel xs ≡ xs
unfolding trim_start
trim_start-digits zero xs h = refl
trim_start-digits (suc fuel) [] h = refl
trim_start-digits (suc fuel) (x ∷ xs) (h, hs) = rw (strip_space-digit x xs h, trim_start)

trim_end-digits : (xs : Bytes) → IsDigits xs → trim_end xs ≡ xs
unfolding trim_end
trim_end-digits [] h = refl
trim_end-digits (x ∷ xs) (h, hs) =
    rw (trim_start-digits (length (x ∷ xs)) (x ∷ xs) (h, hs), trim_end-digits xs hs)

trim-digits : (xs : Bytes) → IsDigits xs → trim xs ≡ xs
unfolding trim
trim-digits xs h = rw (trim_start-digits (length xs) xs h, trim_end-digits xs h)

has_fuel : (fuel n : ℕ) → n < 10 ^ suc fuel → ltb n 10 ≡ false → 1 ≤ fuel
has_fuel zero n a e = absurd (ground arith)
has_fuel (suc fuel) n a e = omega arith

parse_digits-digits :
    (fuel n : ℕ) (rest : Bytes)
    → n < 10 ^ fuel
    → n < u64_end
    → 1 ≤ fuel
    → parse_digits 0 (digits fuel n ++ rest) ≡ parse_digits n rest
unfolding parse_digits digits
parse_digits-digits zero n rest a b c = absurd (omega arith)
parse_digits-digits (suc fuel) n rest a b c = elim (Bool-cases (ltb n 10)) [
  | inl e ↦ ground arith
  | inr e ↦
      let front =
        parse_digits-digits fuel (n / 10) ((48 + n % 10) ∷ rest) (omega arith) (omega arith)
          (has_fuel fuel n a e) in
      rw (e, append_assoc (digits fuel (n / 10)) ((48 + n % 10) ∷ []) rest, front) (ground arith)
]

parse_u64-digits :
    (xs : Bytes) (n : ℕ)
    → IsDigits xs
    → parse_digits 0 xs ≡ some n
    → 1 ≤ length xs
    → parse_u64 xs ≡ some n
unfolding parse_u64
parse_u64-digits [] n h p l = absurd (omega arith)
parse_u64-digits (c ∷ []) n h p l = ground arith
parse_u64-digits (c ∷ d ∷ xs) n h p l = ground arith

length-digits : (fuel n : ℕ) → length (digits fuel n) ≤ fuel
unfolding digits
length-digits zero n = omega arith
length-digits (suc fuel) n = ground (
  arith,
  length-digits fuel (n / 10),
  length-append {0} (digits fuel (n / 10)) ((48 + n % 10) ∷ []),
)

some_digits : (fuel n : ℕ) → 1 ≤ length (digits (suc fuel) n)
unfolding digits
some_digits fuel n = ground (arith, length-append {0} (digits fuel (n / 10)) ((48 + n % 10) ∷ []))

-- A number that is printed is read back, and its record is not empty and not too long.
pub parse_u64-to_string :
    (n : ℕ)
    → n < u64_end
    → (parse_u64 (trim (to_string n)) ≡ some n)
      × (1 ≤ length (to_string n))
      × (length (to_string n) ≤ 20)
unfolding parse_digits
parse_u64-to_string n h =
    let are = digits-IsDigits 20 n in
    let read : parse_digits 0 (digits 20 n) ≡ some n =
      ap (parse_digits 0) (sym (append-nil (digits 20 n)))
      ∙ parse_digits-digits 20 n [] (omega arith) h (omega arith) in
    (
      rw (trim-digits (to_string n) are)
          (parse_u64-digits (to_string n) n are read (some_digits 19 n)),
      some_digits 19 n,
      length-digits 20 n,
    )

pub parse_u64-printed :
    (n : ℕ) → n < u64_end → (parse_u64 (to_string n) ≡ some n) × IsDigits (to_string n)
unfolding parse_digits
parse_u64-printed n h =
    let are = digits-IsDigits 20 n in
    let read : parse_digits 0 (digits 20 n) ≡ some n =
      ap (parse_digits 0) (sym (append-nil (digits 20 n)))
      ∙ parse_digits-digits 20 n [] (omega arith) h (omega arith) in
    (parse_u64-digits (to_string n) n are read (some_digits 19 n), are)
