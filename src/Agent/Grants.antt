-- ===== src/Agent/Grants.antt =====
-- The agent's grants: `GrantKey`, `GrantEntry`, `AgentDekKey`, `AgentDekPurpose` and `AgentState` of
-- crates/avault-cli/src/main.rs. An `Instant` is a number, and each reading of the clock is an
-- argument of the operation, in the order of the readings; `duration_since` saturates as `-` does.
-- A method returns the state after it, with its result.
pub mod Steps
pub mod Purge
pub mod Dead
pub mod Replay
use avault.Prelude.{
  ◌&&◌, arith, none, some, ℕ, ◌-◌, ◌≡◌, ap, ◌↔◌, Bool, true, false, Option, List, ltb, leb,
  if◌then◌else◌, is_some, any,
}
use avault.Prelude.Bytes.{Bytes, eq_bytes, eq_bytes_iff}
use avault.Prelude.Result.{◌>>=◌, ◌>>◌, Result, ok, err, bail_if, or_fail}
use avault.Prelude.Maps.{bytes_eq, Eq, Map, empty, retain, insert, remove, extend}

pub record GrantKey : Type 0 where
  pub grant_id : Bytes

pub data AgentDekPurpose : Type 0 where
  deliver sign : AgentDekPurpose

pub record AgentDekKey : Type 0 where
  pub purpose : AgentDekPurpose
  pub name : Bytes
  pub scheme : Option Bytes
  pub digest_hex : Option Bytes

-- The locked copy of a key is its 32 bytes.
pub record GrantEntry : Type 0 where
  pub expires_at : ℕ
  pub deks : List (AgentDekKey × Bytes)

pub data GrantError : Type 0 where
  missing_or_expired : GrantError
  expired_before_published : GrantError
  approval_already_used : GrantError

pub grant_key_iff : (a b : GrantKey) → (eq_bytes a.grant_id b.grant_id ≡ true) ↔ (a ≡ b)
grant_key_iff a b = (
  λ h. (let e = (eq_bytes_iff a.grant_id b.grant_id).0 h in λ i. record { grant_id = e i }),
  λ e. (eq_bytes_iff a.grant_id b.grant_id).1 (ap (λ (k : GrantKey). k.grant_id) e),
)

instance abbrev pub grant_key_eq : Eq GrantKey
grant_key_eq = record { beq = λ a b. eq_bytes a.grant_id b.grant_id; beq_iff = grant_key_iff }

abbrev pub eq_purpose : AgentDekPurpose → AgentDekPurpose → Bool
eq_purpose deliver deliver = true
eq_purpose sign sign = true
eq_purpose _ _ = false

abbrev pub eq_text? : Option Bytes → Option Bytes → Bool
eq_text? none none = true
eq_text? (some a) (some b) = eq_bytes a b
eq_text? _ _ = false

unfoldable pub eq_dek_key : AgentDekKey → AgentDekKey → Bool
eq_dek_key a b =
    eq_purpose a.purpose b.purpose
    && eq_bytes a.name b.name
    && eq_text? a.scheme b.scheme
    && eq_text? a.digest_hex b.digest_hex

eq_purpose_iff : (a b : AgentDekPurpose) → (eq_purpose a b ≡ true) ↔ (a ≡ b)
eq_purpose_iff deliver deliver = ground arith
eq_purpose_iff deliver sign = ground arith
eq_purpose_iff sign deliver = ground arith
eq_purpose_iff sign sign = ground arith

eq_text?_iff : (a b : Option Bytes) → (eq_text? a b ≡ true) ↔ (a ≡ b)
eq_text?_iff none none = ground arith
eq_text?_iff none (some b) = ground arith
eq_text?_iff (some a) none = ground arith
eq_text?_iff (some a) (some b) = ground (arith, eq_bytes_iff a b)

pub eq_dek_key_iff : (a b : AgentDekKey) → (eq_dek_key a b ≡ true) ↔ (a ≡ b)
unfolding eq_dek_key
eq_dek_key_iff a b = ground (
  arith,
  eq_purpose_iff a.purpose b.purpose,
  eq_bytes_iff a.name b.name,
  eq_text?_iff a.scheme b.scheme,
  eq_text?_iff a.digest_hex b.digest_hex,
)

instance abbrev pub dek_key_eq : Eq AgentDekKey
dek_key_eq = record { beq = eq_dek_key; beq_iff = eq_dek_key_iff }

pub record AgentState : Type 0 where
  pub grants : Map GrantKey GrantEntry
  pub used_grant_nonces : Map Bytes ℕ
  pub last_activity : ℕ
  pub idle_timeout : ℕ

-- `AgentState::new`.
unfoldable pub new : ℕ → ℕ → AgentState
new now idle_timeout = record {
  grants = empty;
  used_grant_nonces = empty;
  last_activity = now;
  idle_timeout = idle_timeout;
}

abbrev pub is_idle : ℕ → AgentState → Bool
is_idle now s = leb s.idle_timeout (now - s.last_activity)

unfoldable pub purge : ℕ → AgentState → AgentState
purge now s = record s {
  grants = retain (λ g. ltb now g.expires_at) (if is_idle now s then empty else s.grants);
  used_grant_nonces = retain (λ expires_at. ltb now expires_at) s.used_grant_nonces;
}

unfoldable pub record_activity : ℕ → ℕ → AgentState → AgentState
record_activity now later s = record (purge now s) { last_activity = later }

unfoldable pub get_live_grant : ℕ → AgentState → GrantKey → Result GrantError GrantEntry
get_live_grant now s scope = do
  bail_if (is_idle now s) missing_or_expired
  grant ← or_fail (s.grants scope) missing_or_expired
  bail_if (leb grant.expires_at now) missing_or_expired
  ok grant

abbrev pub any_used : AgentState → List (Bytes × ℕ) → Bool
any_used s = any (λ nonce. is_some (s.used_grant_nonces nonce.0))

-- After `self.purge()`, at the second reading of the clock.
publish_purged :
    ℕ
    → AgentState
    → GrantKey
    → GrantEntry
    → List (Bytes × ℕ)
    → AgentState × Result GrantError (Unit {0})
publish_purged now s scope grant nonces =
    if leb grant.expires_at now
    then (s, err expired_before_published)
    else if any_used s nonces
    then (s, err approval_already_used)
    else (
      record s {
        used_grant_nonces = extend nonces s.used_grant_nonces;
        last_activity = now;
        grants = insert scope grant s.grants;
      },
      ok tt,
    )

unfoldable pub publish_grant :
    ℕ
    → ℕ
    → AgentState
    → GrantKey
    → GrantEntry
    → List (Bytes × ℕ)
    → AgentState × Result GrantError (Unit {0})
unfolding publish_purged
publish_grant now later s scope grant nonces = publish_purged later (purge now s) scope grant nonces

-- The state change of `Release` and `Revoke`; the result is `released`.
unfoldable pub release : ℕ → ℕ → ℕ → AgentState → GrantKey → AgentState × Bool
release now later last s scope =
    let purged = purge now s in
    let removed = record purged { grants = remove scope purged.grants } in
    if is_some (purged.grants scope)
    then (record_activity later last removed, true)
    else (removed, false)
