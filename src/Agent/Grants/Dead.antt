-- ===== src/Agent/Grants/Dead.antt =====
-- A scope without a live grant stays without one until a grant is published for it: no activity,
-- maintenance or other grant revives it.
use avault.Prelude.{ℕ, ◌≡◌, ◌≢◌, arith}
use avault.Prelude.Result.{err}
use avault.Agent.Grants.{
  GrantKey, missing_or_expired, grant_key_iff, grant_key_eq, AgentState, purge, record_activity,
  get_live_grant, publish_grant, release,
}
use avault.Prelude.Maps.{bytes_eq, beq_refl}
use avault.Agent.Grants.Steps.{Step, purges, records, looks, publishes, releases, Steps, here, next}

abbrev pub IsDead : ℕ → AgentState → GrantKey → Type 0
IsDead t s scope = get_live_grant t s scope ≡ err missing_or_expired

-- The step publishes no grant for the scope.
abbrev pub Spares :
    {t : ℕ} {s : AgentState} {t' : ℕ} {s' : AgentState} → GrantKey → Step t s t' s' → Type 0
Spares scope (purges now h) = Unit
Spares scope (records now later h k) = Unit
Spares scope (looks now h) = Unit
Spares scope (publishes now later scope' grant nonces h k) = scope' ≢ scope
Spares scope (releases now later last scope' h k l) = Unit

abbrev pub AllSpare :
    {t : ℕ} {s : AgentState} {t' : ℕ} {s' : AgentState} → GrantKey → Steps t s t' s' → Type 0
AllSpare scope here = Unit
AllSpare scope (next r st) = AllSpare scope r × Spares scope st

Step-IsDead :
    {t : ℕ} {s : AgentState} {t' : ℕ} {s' : AgentState} (scope : GrantKey) (st : Step t s t' s')
    → Spares scope st
    → IsDead t s scope
    → IsDead t' s' scope
unfolding get_live_grant purge record_activity publish_grant release
Step-IsDead scope (purges now h) q d = ground arith
Step-IsDead scope (records now later h k) q d = ground arith
Step-IsDead scope (looks now h) q d = ground arith
Step-IsDead scope (publishes now later scope' grant nonces h k) q d =
    ground (arith, grant_key_iff scope' scope)
Step-IsDead scope (releases now later last scope' h k l) q d = ground arith

-- Over any history of steps by any number of connections, maintenance included.
pub Steps-IsDead :
    {t : ℕ} {s : AgentState} {t' : ℕ} {s' : AgentState} (scope : GrantKey) (r : Steps t s t' s')
    → AllSpare scope r
    → IsDead t s scope
    → IsDead t' s' scope
Steps-IsDead scope here q d = d
Steps-IsDead scope (next r st) (q, p) d = Step-IsDead scope st p (Steps-IsDead scope r q d)

-- After release or revoke, no history of steps that publishes no grant for the scope makes a grant
-- of it live again.
pub release-IsDead :
    (now later last : ℕ) {t : ℕ} (s : AgentState) {s' : AgentState} (scope : GrantKey)
    → (r : Steps last (release now later last s scope).0 t s') → AllSpare scope r
    → IsDead t s' scope
unfolding get_live_grant release record_activity purge
release-IsDead now later last s scope r q = Steps-IsDead scope r q (ground (arith, beq_refl scope))
