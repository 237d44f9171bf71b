-- ===== src/Agent/Use/Checks.antt =====
-- What `open_with_grant` checks before it opens anything, whatever other threads do.
use avault.Prelude.{ℕ, ◌≡◌, refl, ◌∙◌, inl, inr, Bool, true, Option, arith}
use avault.Prelude.Bytes.{Bytes}
use avault.Prelude.Result.{Result, ok, err, is_ok, Result-cases}
use avault.Agent.Grants.Steps.{Steps}
use avault.Agent.Grants.Dead.{AllSpare, release-IsDead}
use avault.Agent.Grants.{
  release, missing_or_expired, AgentState, GrantKey, GrantEntry, GrantError, get_live_grant,
}
use avault.Agent.Use.{UseError, refused, AgentShared, Turn, master_for, record_use, open_with_grant}

-- Without a live grant, the request is refused before the master key is touched: the agent is left
-- as it was.
pub open_with_grant-refused :
    {T : Type 0} (t : Turn) (scope : GrantKey) (needs_standard_master : Bool)
    (opener : GrantEntry → Option Bytes → Result UseError T) (agent : AgentShared) (e : GrantError)
    → get_live_grant t.first agent.state scope ≡ err e
    → open_with_grant t scope needs_standard_master opener agent ≡ (agent, err (refused e))
unfolding open_with_grant
open_with_grant-refused t scope needs_standard_master opener agent e h = rw h refl

-- The agent when the grant is checked again.
abbrev pub agent_at_check : Turn → Bool → AgentShared → AgentShared
agent_at_check t needs_standard_master agent =
    t.after_master (master_for t needs_standard_master (t.before_master agent)).0

pub record OpenedUnder {T : Type 0} (t : Turn) (scope : GrantKey) (needs_standard_master : Bool)
    (opener : GrantEntry → Option Bytes → Result UseError T) (agent after : AgentShared)
    (opened : T) : Type 0 where
  pub grant : GrantEntry
  pub master : Option Bytes
  pub was_live : is_ok (get_live_grant t.first agent.state scope) ≡ true
  pub still_live :
      get_live_grant t.second (agent_at_check t needs_standard_master agent).state scope ≡ ok grant
  pub master_is : (master_for t needs_standard_master (t.before_master agent)).1 ≡ ok master
  pub opens : opener grant master ≡ ok opened
  pub recorded :
      after ≡ (record_use t (t.after_open (agent_at_check t needs_standard_master agent))).0

-- What is opened is opened with a grant of the scope that was live on arrival and is live again
-- after the master key was obtained, with just that grant and key, and then the time of use is
-- renewed, whatever other threads do between the locks.
pub open_with_grant-OpenedUnder :
    {T : Type 0} (t : Turn) (scope : GrantKey) (needs_standard_master : Bool)
    (opener : GrantEntry → Option Bytes → Result UseError T) (agent : AgentShared) {opened : T}
    → (open_with_grant t scope needs_standard_master opener agent).1 ≡ ok opened
    → OpenedUnder t scope needs_standard_master opener agent
        (open_with_grant t scope needs_standard_master opener agent).0
        opened
unfolding open_with_grant
open_with_grant-OpenedUnder t scope needs_standard_master opener agent h =
    let m = master_for t needs_standard_master (t.before_master agent) in
    let at_check = agent_at_check t needs_standard_master agent in
    elim (Result-cases (get_live_grant t.first agent.state scope)) [
      | inr (x, e) ↦ absurd (ground arith)
      | inl (g, e) ↦ elim (Result-cases m.1) [
        | inr (x, f) ↦ absurd (ground arith)
        | inl (master, f) ↦ elim (Result-cases (get_live_grant t.second at_check.state scope)) [
          | inr (x, k) ↦ absurd (ground arith)
          | inl (grant, k) ↦ elim (Result-cases (opener grant master)) [
            | inr (x, o) ↦ absurd (ground arith)
            | inl (found, o) ↦ record {
              grant = grant;
              master = master;
              was_live = rw e refl;
              still_live = k;
              master_is = f;
              opens = o ∙ ground arith;
              recorded = ground arith;
            }
          ]
        ]
      ]
    ]

-- After release or revoke, and any history of steps that publishes no grant for the scope, a use
-- of the scope is refused with the error of a missing grant and leaves the agent, the cached
-- master key included, as it was.
pub open_with_grant-released :
    {T : Type 0} (turn : Turn) (scope : GrantKey) (needs_standard_master : Bool)
    (opener : GrantEntry → Option Bytes → Result UseError T) (agent : AgentShared) (s : AgentState)
    (now later last : ℕ) (r : Steps last (release now later last s scope).0 turn.first agent.state)
    → AllSpare scope r
    → open_with_grant turn scope needs_standard_master opener agent
      ≡ (agent, err (refused missing_or_expired))
open_with_grant-released turn scope needs_standard_master opener agent s now later last r spare =
    open_with_grant-refused turn scope needs_standard_master opener agent missing_or_expired
      (release-IsDead now later last s scope r spare)
