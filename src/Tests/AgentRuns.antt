-- ===== src/Tests/AgentRuns.antt =====
-- The agent's state on concrete histories.
use avault.Prelude.{ℕ, ◌≡◌, refl, ◌≢◌, List, [], ◌∷◌, arith}
use avault.Prelude.Bytes.{Bytes, codes, eq_bytes}
use avault.Prelude.Result.{ok, err}
use avault.Agent.Grants.{
  GrantKey, GrantEntry, approval_already_used, grant_key_eq, AgentState, new, purge,
  record_activity, get_live_grant, publish_grant, release,
}
use avault.Prelude.Maps.{bytes_eq}
use avault.Agent.Grants.Steps.{here, next, purges, records}
use avault.Agent.Grants.Purge.{get_live_grant-purge}
use avault.Agent.Grants.Dead.{IsDead, release-IsDead}
use avault.Agent.Grants.Replay.{publish_once}

abbrev scope : GrantKey
scope = record { grant_id = codes "run-1" }

abbrev grant : GrantEntry
grant = record { expires_at = 400; deks = [] }

abbrev nonces : List (Bytes × ℕ)
nonces = (codes "nonce-0123456789", 350) ∷ []

abbrev start : AgentState
start = new 0 300

abbrev published : AgentState
published = (publish_grant 10 10 start scope grant nonces).0

publishes_start : (publish_grant 10 10 start scope grant nonces).1 ≡ ok tt
unfolding publish_grant purge new
publishes_start = refl

get_live_grant-purge_example :
    get_live_grant 50 (purge 40 published) scope ≡ get_live_grant 50 published scope
get_live_grant-purge_example = get_live_grant-purge 40 50 published scope (omega arith)

publish_twice : (publish_grant 20 20 published scope grant nonces).1 ≡ err approval_already_used
unfolding publish_grant purge new eq_bytes
publish_twice = refl

release-IsDead_example :
    IsDead 60 (record_activity 60 60 (release 20 20 20 published scope).0) scope
release-IsDead_example =
    release-IsDead 20 20 20 published scope (next here (records 60 60 (omega arith) (omega arith)))
      (tt, tt)

publish_once_example : (publish_grant 30 30 (purge 30 published) scope grant nonces).1 ≢ ok tt
unfolding eq_bytes
publish_once_example =
    publish_once 10 10 30 30 start scope scope grant grant (codes "nonce-0123456789") 350 [] []
      nonces refl publishes_start (next here (purges 30 (omega arith))) (omega arith) (omega arith)
      refl
