-- ===== src/Agent/Grants/Purge.antt =====
-- Purging is invisible to requests: it only drops what `get_live_grant` refuses anyway.
use avault.Prelude.{ℕ, ◌-◌, ◌≤◌, ◌<◌, ◌≡◌, ◌⊎◌, true, ◌||◌, List, arith, leb, if◌then◌else◌}
use avault.Prelude.Bytes.{Bytes}
use avault.Prelude.Result.{ok, err}
use avault.Agent.Grants.{
  GrantKey, GrantEntry, GrantError, missing_or_expired, expired_before_published,
  approval_already_used, grant_key_eq, AgentState, purge, get_live_grant, any_used, publish_grant,
}
use avault.Prelude.Maps.{bytes_eq, beq_refl}

-- At the time of a purge and later, every scope has the same live grant, or the same error, as
-- without it.
pub get_live_grant-purge :
    (now later : ℕ) (s : AgentState) (scope : GrantKey)
    → now ≤ later
    → get_live_grant later (purge now s) scope ≡ get_live_grant later s scope
unfolding get_live_grant purge
get_live_grant-purge now later s scope h = ground arith

-- After a successful publication the scope has exactly that grant until it expires or the idle
-- timeout has passed.
pub get_live_grant-publish_grant :
    (now later t : ℕ) (s : AgentState) (scope : GrantKey) (grant : GrantEntry)
    (nonces : List (Bytes × ℕ))
    → (publish_grant now later s scope grant nonces).1 ≡ ok tt
    → get_live_grant t (publish_grant now later s scope grant nonces).0 scope ≡ (
        if leb s.idle_timeout (t - later) || leb grant.expires_at t
        then err missing_or_expired
        else ok grant)
unfolding get_live_grant publish_grant purge
get_live_grant-publish_grant now later t s scope grant nonces h = ground (arith, beq_refl scope)

-- A refused publication only purges; the error tells an expired grant from a nonce that was
-- already used.
pub publish_grant-err :
    (now later : ℕ) (s : AgentState) (scope : GrantKey) (grant : GrantEntry)
    (nonces : List (Bytes × ℕ)) (e : GrantError)
    → (publish_grant now later s scope grant nonces).1 ≡ err e
    → ((publish_grant now later s scope grant nonces).0 ≡ purge now s)
      × (((e ≡ expired_before_published) × (grant.expires_at ≤ later))
          ⊎ ((e ≡ approval_already_used)
              × (later < grant.expires_at)
              × (any_used (purge now s) nonces ≡ true)))
unfolding publish_grant
publish_grant-err now later s scope grant nonces e h = ground arith
