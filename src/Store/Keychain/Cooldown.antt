-- ===== src/Store/Keychain/Cooldown.antt =====
-- The cooldown of Keychain authorization prompts: `keychain_authorization_cooldown`, its record in
-- the gate file, and `authorize_with_gate` once the lock of the gate is settled. Reads and writes of
-- the open gate succeed. A record that parses is ASCII digits and white space, so that its UTF-8
-- need not be checked again.
pub mod Decimal
pub mod Window
use avault.Prelude.{
  ℕ, ◌+◌, ◌-◌, ◌*◌, ◌^◌, min, Bool, ◌&&◌, Option, none, some, [], ◌∷◌, ltb, leb, ◌==◌,
  if◌then◌else◌, length,
}
use avault.Prelude.Bytes.{Bytes, is_digit}
use avault.Prelude.Result.{Result, ok, err}
use avault.Prelude.Text.{trim, to_string}
use avault.Store.{StoreError, authorization_busy, cooldown}
use avault.Store.Keychain.{is_keychain_denial}

abbrev pub u64_end : ℕ
u64_end = 2 ^ 64

abbrev pub keychain_authorization_cooldown_secs : ℕ
keychain_authorization_cooldown_secs = 120

abbrev pub max_keychain_cooldown_record_bytes : ℕ
max_keychain_cooldown_record_bytes = 32

-- `str::parse::<u64>`.
unfoldable pub parse_digits : ℕ → Bytes → Option ℕ
parse_digits n [] = some n
parse_digits n (c ∷ cs) =
    let rest = parse_digits (n * 10 + (c - 48)) cs in
    if is_digit c && ltb (n * 10 + (c - 48)) u64_end then rest else none

unfoldable pub parse_u64 : Bytes → Option ℕ
parse_u64 [] = none
parse_u64 (c ∷ []) = if c == 43 then none else parse_digits 0 (c ∷ [])
parse_u64 (c ∷ d ∷ cs) = if c == 43 then parse_digits 0 (d ∷ cs) else parse_digits 0 (c ∷ d ∷ cs)

abbrev pub saturating_add : ℕ → ℕ → ℕ
saturating_add a b = min (a + b) (u64_end - 1)

-- A record that cannot be used.
abbrev rewritten : ℕ → Bytes × Option ℕ
rewritten now = (
  to_string (saturating_add now keychain_authorization_cooldown_secs),
  some keychain_authorization_cooldown_secs,
)

-- The record after the call, and the seconds that remain.
cooldown_until : Bytes → ℕ → Option ℕ → Bytes × Option ℕ
cooldown_until record_bytes now none = rewritten now
cooldown_until record_bytes now (some until) =
    if leb until now
    then ([], none)
    else if leb (until - now) keychain_authorization_cooldown_secs
    then (record_bytes, some (until - now))
    else rewritten now

unfoldable pub keychain_authorization_cooldown : Bytes → ℕ → Bytes × Option ℕ
unfolding cooldown_until
keychain_authorization_cooldown [] now = ([], none)
keychain_authorization_cooldown (c ∷ cs) now = cooldown_until (c ∷ cs) now (
    if leb (length (c ∷ cs)) max_keychain_cooldown_record_bytes
    then parse_u64 (trim (c ∷ cs))
    else none)

module _ {A : Type 0} where
  -- The `match interactive()`; `denied_at` is the clock after the answer.
  after_prompt : Bytes → ℕ → Result StoreError A → Bytes × Result StoreError A
  after_prompt gate denied_at (ok value) = ([], ok value)
  after_prompt gate denied_at (err e) =
      if is_keychain_denial e
      then (to_string (saturating_add denied_at keychain_authorization_cooldown_secs), err e)
      else (gate, err e)

  after_cooldown :
      Bool
      → ℕ
      → Result StoreError A
      → Result StoreError A
      → Bytes × Option ℕ
      → Bytes × Result StoreError A
  unfolding after_prompt
  after_cooldown waited denied_at interactive coalesced (gate, some remaining_secs) =
      (gate, err (cooldown remaining_secs))
  after_cooldown waited denied_at interactive coalesced (gate, none) =
      if waited then (gate, coalesced) else after_prompt gate denied_at interactive

  -- `locked` says whether the lock was taken in time, and whether the caller waited for it.
  -- `interactive` and `coalesced` are what the two operations return if they run.
  unfoldable pub authorize_with_gate :
      Option Bool
      → ℕ
      → ℕ
      → Result StoreError A
      → Result StoreError A
      → Bytes
      → Bytes × Result StoreError A
  unfolding after_cooldown
  authorize_with_gate none now denied_at interactive coalesced gate = (gate, err authorization_busy)
  authorize_with_gate (some waited) now denied_at interactive coalesced gate =
      after_cooldown waited denied_at interactive coalesced
        (keychain_authorization_cooldown gate now)
