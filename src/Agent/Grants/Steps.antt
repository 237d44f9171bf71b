-- ===== src/Agent/Grants/Steps.antt =====
-- Everything that happens to the agent's grants, as a relation: each step takes the state lock and
-- reads the clock inside it, and the clock never runs backwards.
use avault.Prelude.{ℕ, ◌≤◌, List}
use avault.Prelude.Bytes.{Bytes}
use avault.Agent.Grants.{
  GrantKey, GrantEntry, grant_key_eq, AgentState, purge, record_activity, publish_grant, release,
}
use avault.Prelude.Maps.{bytes_eq}

-- `Step t s t' s'`: from state `s`, with the clock at `t`, one locked section ends with `s'` at `t'`.
pub data Step (t : ℕ) (s : AgentState) : ℕ → AgentState → Type 0 where
  purges : (now : ℕ) → t ≤ now → Step t s now (purge now s)
  records : (now later : ℕ) → t ≤ now → now ≤ later → Step t s later (record_activity now later s)
  looks : (now : ℕ) → t ≤ now → Step t s now s
  publishes :
      (now later : ℕ) (scope : GrantKey) (grant : GrantEntry) (nonces : List (Bytes × ℕ))
      → t ≤ now
      → now ≤ later
      → Step t s later (publish_grant now later s scope grant nonces).0
  releases :
      (now later last : ℕ) (scope : GrantKey)
      → t ≤ now
      → now ≤ later
      → later ≤ last
      → Step t s last (release now later last s scope).0

pub data Steps (t : ℕ) (s : AgentState) : ℕ → AgentState → Type 0 where
  here : Steps t s t s
  next :
      {t' t'' : ℕ} {s' s'' : AgentState} → Steps t s t' s' → Step t' s' t'' s'' → Steps t s t'' s''
