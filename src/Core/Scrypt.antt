-- ===== src/Core/Scrypt.antt =====
-- `validate_scrypt_params` and `derive_kek_scrypt`, which crates/avault-core/src/lib.rs and
-- crates/avault-store/src/lib.rs both have, in the same words. The numbers are `u32`.
use native.Mathlib.Nat.{pow-le-pow_right, one-le-pow, pow-suc}
use avault.Prelude.{
  ℕ, zero, suc, ◌^◌, ◌≤◌, ◌<◌, ◌≡◌, refl, ap, ◌∙◌, inl, inr, Bool, true, false, not, ◌||◌, Option,
  none, some, arith, ltb, leb, ◌==◌, if◌then◌else◌, within, ltb→lt, ==_iff, Bool-cases,
}
use avault.Prelude.Bytes.{Bytes}
use avault.Prelude.Result.{Result, ok, ◌>>=◌, ◌>>◌, bail_if, or_fail, is_ok}
use avault.Core.Crypto.{
  CoreError, Crypto, scrypt_n_out_of_bounds, scrypt_r_out_of_bounds, scrypt_p_out_of_bounds,
  invalid_scrypt_parameters,
}

-- `checked_ilog2` of a number below `2 ^ bits`: the largest `k` with `2 ^ k ≤ n`.
unfoldable pub ilog2_below : ℕ → ℕ → Option ℕ
ilog2_below zero n = none
ilog2_below (suc bits) n = if leb (2 ^ bits) n then some bits else ilog2_below bits n

unfoldable pub checked_ilog2 : ℕ → Option ℕ
checked_ilog2 n = ilog2_below 32 n

-- `is_power_of_two`.
unfoldable pub power_below : ℕ → ℕ → Bool
power_below zero n = false
power_below (suc bits) n = n == 2 ^ bits || power_below bits n

unfoldable pub is_power_of_two : ℕ → Bool
is_power_of_two n = power_below 32 n

unfoldable pub validate_scrypt_params : ℕ → ℕ → ℕ → Result CoreError (Unit {0})
validate_scrypt_params n r p = do
  bail_if (ltb n 2 || not (is_power_of_two n) || ltb (2 ^ 17) n) scrypt_n_out_of_bounds
  bail_if (not (within 1 16 r)) scrypt_r_out_of_bounds
  bail_if (not (within 1 16 p)) scrypt_p_out_of_bounds
  ok tt

module _ (c : Crypto) where
  unfoldable pub derive_kek_scrypt : Bytes → Bytes → ℕ → ℕ → ℕ → Result CoreError Bytes
  derive_kek_scrypt passphrase salt n r p = do
    validate_scrypt_params n r p
    log_n ← or_fail (checked_ilog2 n) scrypt_n_out_of_bounds
    or_fail (c.scrypt passphrase salt log_n r p) invalid_scrypt_parameters

power_below-exponent : (bits n : ℕ) → power_below bits n ≡ true → (k : ℕ) × (k < bits) × (n ≡ 2 ^ k)
unfolding power_below
power_below-exponent zero n h = cc
power_below-exponent (suc bits) n h = elim (Bool-cases (n == 2 ^ bits)) [
  | inl e ↦ (bits, omega arith, (==_iff _ _).0 e)
  | inr e ↦ let (k, l, q) = power_below-exponent bits n (rw e at h) in (k, omega arith, q)
]

pow-lt : (a b : ℕ) → a < b → 2 ^ a < 2 ^ b
pow-lt a b h =
    let step : 2 ^ suc a ≤ 2 ^ b = pow-le-pow_right (omega arith) h in
    let pos : 1 ≤ 2 ^ a = one-le-pow a 2 (omega arith) in omega (arith, pow-suc 2 a)

ilog2_below-power : (bits k : ℕ) → k < bits → ilog2_below bits (2 ^ k) ≡ some k
unfolding ilog2_below
ilog2_below-power zero k h = elim h [ ]
ilog2_below-power (suc bits) k h = elim (Bool-cases (k == bits)) [
  | inl e ↦ rw ((==_iff k bits).0 e) (ground arith)
  | inr e ↦
      let below : k < bits = ground arith in
      ground (arith, pow-lt k bits below, ilog2_below-power bits k below)
]

exponent_bounds : (k n : ℕ) → n ≡ 2 ^ k → 2 ≤ n → n ≤ 2 ^ 17 → (1 ≤ k) × (k ≤ 17)
exponent_bounds zero n e a b = absurd (omega arith)
exponent_bounds (suc k) n e a b = elim (Bool-cases (ltb 17 (suc k))) [
  | inl h ↦ let grow = pow-lt 17 (suc k) (ltb→lt 17 (suc k) h) in absurd (omega (arith, grow))
  | inr h ↦ (omega arith, ground arith)
]

is_power_of_two-exponent : (n : ℕ) → is_power_of_two n ≡ true → (k : ℕ) × (k < 32) × (n ≡ 2 ^ k)
unfolding is_power_of_two
is_power_of_two-exponent n h = power_below-exponent 32 n h

checked_ilog2-power : (k : ℕ) → k < 32 → checked_ilog2 (2 ^ k) ≡ some k
unfolding checked_ilog2
checked_ilog2-power k h = ilog2_below-power 32 k h

validated_ranges :
    (n r p : ℕ)
    → is_ok (validate_scrypt_params n r p) ≡ true
    → (is_power_of_two n ≡ true)
      × (2 ≤ n)
      × (n ≤ 2 ^ 17)
      × (1 ≤ r)
      × (r ≤ 16)
      × (1 ≤ p)
      × (p ≤ 16)
      × (validate_scrypt_params n r p ≡ ok tt)
unfolding validate_scrypt_params
validated_ranges n r p h = ground arith

-- Parameters that pass validation are a power of two from 2 to 2^17 and two numbers from 1 to 16,
-- and scrypt is then called with the exact logarithm.
pub derive_kek_scrypt-validated :
    (c : Crypto) (passphrase salt : Bytes) (n r p : ℕ)
    → is_ok (validate_scrypt_params n r p) ≡ true
    → (k : ℕ) × (n ≡ 2 ^ k)
      × (1 ≤ k)
      × (k ≤ 17)
      × (1 ≤ r)
      × (r ≤ 16)
      × (1 ≤ p)
      × (p ≤ 16)
      × (derive_kek_scrypt c passphrase salt n r p
          ≡ or_fail (c.scrypt passphrase salt k r p) invalid_scrypt_parameters)
unfolding derive_kek_scrypt
derive_kek_scrypt-validated c passphrase salt n r p h =
    let (power, low, high, r_low, r_high, p_low, p_high, passes) = validated_ranges n r p h in
    let (k, l, e) = is_power_of_two-exponent n power in
    let (k_low, k_high) = exponent_bounds k n e low high in
    let log_n : checked_ilog2 n ≡ some k = ap checked_ilog2 e ∙ checked_ilog2-power k l in
    (k, e, k_low, k_high, r_low, r_high, p_low, p_high, rw (passes, log_n))

-- The parameters of new exports pass.
pub validate_scrypt_params-export : validate_scrypt_params (2 ^ 15) 8 1 ≡ ok tt
unfolding validate_scrypt_params is_power_of_two power_below
validate_scrypt_params-export = refl
