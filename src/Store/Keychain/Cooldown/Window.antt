-- ===== src/Store/Keychain/Cooldown/Window.antt =====
-- How long the cooldown suppresses prompts.
use avault.Prelude.{
  ℕ, ◌+◌, ◌-◌, ◌≤◌, ◌<◌, ◌≡◌, refl, ap, ◌∙◌, inl, inr, Bool, true, false, Option, none, some, [],
  ◌∷◌, arith, leb, if◌then◌else◌, Bool-cases, length,
}
use avault.Prelude.Bytes.{Bytes}
use avault.Prelude.Result.{Result, err}
use mathlib.Core.Path.{subst}
use avault.Prelude.Text.{trim, to_string}
use avault.Store.{StoreError, cooldown}
use avault.Store.Keychain.{is_keychain_denial}
use avault.Store.Keychain.Cooldown.{
  u64_end, keychain_authorization_cooldown_secs, max_keychain_cooldown_record_bytes, parse_u64,
  saturating_add, rewritten, cooldown_until, keychain_authorization_cooldown, after_prompt,
  after_cooldown, authorize_with_gate,
}
use avault.Store.Keychain.Cooldown.Decimal.{parse_u64-to_string}

-- The record stands for a time at which the cooldown ends.
abbrev Until : Bytes → ℕ → Type 0
Until gate until =
    (parse_u64 (trim gate) ≡ some until)
    × (1 ≤ length gate)
    × (length gate ≤ max_keychain_cooldown_record_bytes)

to_string-Until : (n : ℕ) → n < u64_end → Until (to_string n) n
to_string-Until n h = let (p, a, b) = parse_u64-to_string n h in (p, a, omega arith)

Until-cooldown :
    (gate : Bytes) (until now : ℕ)
    → Until gate until
    → until ≤ now + keychain_authorization_cooldown_secs
    → keychain_authorization_cooldown gate now
      ≡ (if leb until now then ([], none) else (gate, some (until - now)))
unfolding keychain_authorization_cooldown cooldown_until
Until-cooldown [] until now (p, a, b) h = absurd (omega arith)
Until-cooldown (c ∷ cs) until now (p, a, b) h = ground arith

abbrev Bounded : Bytes × Option ℕ → ℕ → ℕ → Type 0
Bounded r now rem = Until r.0 (now + rem) × (rem ≤ keychain_authorization_cooldown_secs) × (1 ≤ rem)

rewritten-Bounded :
    (now rem : ℕ)
    → now + keychain_authorization_cooldown_secs < u64_end
    → (rewritten now).1 ≡ some rem
    → Bounded (rewritten now) now rem
rewritten-Bounded now rem h e =
    let is : rem ≡ keychain_authorization_cooldown_secs = ground arith in
    let sum : saturating_add now keychain_authorization_cooldown_secs ≡ now + rem = omega arith in
    (
      subst (Until (to_string (saturating_add now keychain_authorization_cooldown_secs))) sum
          (to_string-Until (saturating_add now keychain_authorization_cooldown_secs) (omega arith)),
      omega arith,
      omega arith,
    )

cooldown_until-Bounded :
    (gate : Bytes) (now rem : ℕ) (r : Option ℕ)
    → now + keychain_authorization_cooldown_secs < u64_end
    → ((until : ℕ) → r ≡ some until → Until gate until)
    → (cooldown_until gate now r).1 ≡ some rem
    → Bounded (cooldown_until gate now r) now rem
unfolding cooldown_until
cooldown_until-Bounded gate now rem none h u e = rewritten-Bounded now rem h e
cooldown_until-Bounded gate now rem (some until) h u e = elim (Bool-cases (leb until now)) [
  | inl past ↦ absurd (ground arith)
  | inr later ↦ elim (Bool-cases (leb (until - now) keychain_authorization_cooldown_secs)) [
    | inr far ↦ rw (later, far) (rewritten-Bounded now rem h (ground arith))
    | inl near ↦
        let is : rem ≡ until - now = ground arith in
        let sum : until ≡ now + rem = ground arith in
        rw (later, near) (subst (Until gate) sum (u until refl), ground arith, ground arith)
  ]
]

cooldown-Bounded :
    (gate : Bytes) (now rem : ℕ)
    → now + keychain_authorization_cooldown_secs < u64_end
    → (keychain_authorization_cooldown gate now).1 ≡ some rem
    → Bounded (keychain_authorization_cooldown gate now) now rem
unfolding keychain_authorization_cooldown
cooldown-Bounded [] now rem h e = absurd (ground arith)
cooldown-Bounded (c ∷ cs) now rem h e =
    cooldown_until-Bounded (c ∷ cs) now rem
      (if leb (length (c ∷ cs)) max_keychain_cooldown_record_bytes
        then parse_u64 (trim (c ∷ cs))
        else none)
      h (λ until p. (ground arith, omega arith, ground arith)) e

-- A cooldown that is found, however the record reads, has at most 120 seconds left, and each later
-- look finds what is left of it and nothing after its end, if the clock stays 120 seconds below
-- 2^64.
pub keychain_authorization_cooldown-window :
    (gate : Bytes) (now rem later : ℕ)
    → now + keychain_authorization_cooldown_secs < u64_end
    → now ≤ later
    → (keychain_authorization_cooldown gate now).1 ≡ some rem
    → (rem ≤ keychain_authorization_cooldown_secs)
      × ((keychain_authorization_cooldown (keychain_authorization_cooldown gate now).0 later).1
          ≡ (if leb (now + rem) later then none else some (now + rem - later)))
keychain_authorization_cooldown-window gate now rem later h l e =
    let (until, bounded, some_left) = cooldown-Bounded gate now rem h e in
    (
      bounded,
      ground (
        arith,
        Until-cooldown (keychain_authorization_cooldown gate now).0 (now + rem) later until
            (omega arith),
      ),
    )

denied_gate :
    {A : Type 0} (denied_at : ℕ) (coalesced : Result StoreError A) (e : StoreError)
    → is_keychain_denial e ≡ true
    → (found : Bytes × Option ℕ) → found.1 ≡ none
    → (after_cooldown false denied_at (err e) coalesced found).0
      ≡ to_string (saturating_add denied_at keychain_authorization_cooldown_secs)
unfolding after_cooldown after_prompt
denied_gate denied_at coalesced e d (gate, none) n = rw d refl
denied_gate denied_at coalesced e d (gate, some rem) n = absurd (cc)

-- After a denied prompt, which had to be shown as no cooldown was on, every caller that takes the
-- gate before 120 seconds have passed is refused with the time left, and the record stays, if the
-- times are below 2^64.
pub authorize_with_gate-denied :
    {A : Type 0} (gate : Bytes) (now denied_at later denied_at' : ℕ) (waited : Bool)
    (coalesced interactive' coalesced' : Result StoreError A) (e : StoreError)
    → denied_at + keychain_authorization_cooldown_secs < u64_end
    → is_keychain_denial e ≡ true
    → (keychain_authorization_cooldown gate now).1 ≡ none
    → denied_at ≤ later
    → later < denied_at + keychain_authorization_cooldown_secs
    → authorize_with_gate
        (some waited)
        later
        denied_at'
        interactive'
        coalesced'
        (authorize_with_gate (some false) now denied_at (err e) coalesced gate).0
      ≡ (
        (authorize_with_gate (some false) now denied_at (err e) coalesced gate).0,
        err (cooldown (denied_at + keychain_authorization_cooldown_secs - later)),
      )
unfolding authorize_with_gate after_cooldown after_prompt
authorize_with_gate-denied gate now denied_at later denied_at' waited coalesced interactive'
      coalesced' e h d n a b =
    let until = denied_at + keychain_authorization_cooldown_secs in
    let sum : saturating_add denied_at keychain_authorization_cooldown_secs ≡ until = omega arith in
    let gate' : (authorize_with_gate (some false) now denied_at (err e) coalesced gate).0
        ≡ to_string until =
      denied_gate denied_at coalesced e d (keychain_authorization_cooldown gate now) n
      ∙ ap to_string sum in
    let found =
      Until-cooldown (to_string until) until later (to_string-Until until h) (omega arith) in
    let open_window : leb until later ≡ false = ground arith in rw (gate', found, open_window) refl
