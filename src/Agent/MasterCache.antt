-- ===== src/Agent/MasterCache.antt =====
-- The resident agent's standard master: `AgentMasterSource`, `CachedMaster` and `AgentMasterCache`
-- of crates/avault-cli/src/main.rs. A locked section is one function of the cache and of the clock
-- read inside it. What other threads do to the cache while `get` waits for the `loading` lock and
-- while the loader runs is an argument, and so is what the loader returns.
pub mod Get
pub mod Threads
use avault.Prelude.{ℕ, ◌-◌, Bool, false, Option, none, some, leb, if◌then◌else◌}
use avault.Prelude.Bytes.{Bytes}
use avault.Prelude.Result.{Result, ok, err}

pub data AgentMasterSource : Type 0 where
  unlocked : Bytes → AgentMasterSource
  store : AgentMasterSource

pub record CachedMaster : Type 0 where
  pub key : Bytes
  pub last_used : ℕ

pub record AgentMasterCache : Type 0 where
  pub source : AgentMasterSource
  pub idle_timeout : ℕ
  pub cached : Option CachedMaster

-- `AgentMasterCache::new`.
unfoldable pub new : AgentMasterSource → ℕ → AgentMasterCache
new source idle_timeout = record { source = source; idle_timeout = idle_timeout; cached = none }

abbrev expired : ℕ → ℕ → Option CachedMaster → Bool
expired now idle_timeout none = false
expired now idle_timeout (some cached) = leb idle_timeout (now - cached.last_used)

unfoldable pub expire : ℕ → AgentMasterCache → AgentMasterCache
expire now c = if expired now c.idle_timeout c.cached then record c { cached = none } else c

unfoldable pub purge : ℕ → AgentMasterCache → AgentMasterCache
unfolding expire
purge now c = expire now c

abbrev touch : ℕ → AgentMasterCache → Option CachedMaster → AgentMasterCache × Option Bytes
touch now c none = (c, none)
touch now c (some cached) =
    (record c { cached = some (record cached { last_used = now }) }, some cached.key)

unfoldable pub use_cached : ℕ → AgentMasterCache → AgentMasterCache × Option Bytes
unfolding expire
use_cached now c = let kept = expire now c in touch now kept kept.cached

-- The last locked section of `get`.
unfoldable pub store_loaded : ℕ → Bytes → AgentMasterCache → AgentMasterCache
store_loaded now key c = record c { cached = some (record { key = key; last_used = now }) }

module _ {E : Type 0} where
  -- `if let Some(master) = self.use_cached()? { return Ok(master) }`.
  abbrev pub unless_hit :
      AgentMasterCache × Option Bytes
      → (AgentMasterCache → AgentMasterCache × Result E Bytes)
      → AgentMasterCache × Result E Bytes
  unless_hit (seen, some key) miss = (seen, ok key)
  unless_hit (seen, none) miss = miss seen

  -- The loader has returned; `now` is read after it.
  unfoldable pub get_loaded :
      ℕ → Result E Bytes → AgentMasterCache → AgentMasterCache × Result E Bytes
  get_loaded now (err e) c = (c, err e)
  get_loaded now (ok key) c = (store_loaded now key c, ok key)

  -- With the `loading` lock held.
  unfoldable pub get_loading :
      ℕ
      → ℕ
      → Result E Bytes
      → (AgentMasterCache → AgentMasterCache)
      → AgentMasterCache
      → AgentMasterCache × Result E Bytes
  unfolding get_loaded
  get_loading now later loaded during c =
      unless_hit (use_cached now c) (λ seen. get_loaded later loaded (during seen))

  get_store :
      ℕ
      → ℕ
      → ℕ
      → Result E Bytes
      → (AgentMasterCache → AgentMasterCache)
      → (AgentMasterCache → AgentMasterCache)
      → AgentMasterCache
      → AgentMasterCache × Result E Bytes
  unfolding get_loading
  get_store first now later loaded waiting during c =
      unless_hit (use_cached first c) (λ seen. get_loading now later loaded during (waiting seen))

  get_from :
      AgentMasterSource
      → ℕ
      → ℕ
      → ℕ
      → Result E Bytes
      → (AgentMasterCache → AgentMasterCache)
      → (AgentMasterCache → AgentMasterCache)
      → AgentMasterCache
      → AgentMasterCache × Result E Bytes
  unfolding get_store
  get_from (unlocked master) first now later loaded waiting during c = (c, ok master)
  get_from store first now later loaded waiting during c =
      get_store first now later loaded waiting during c

  unfoldable pub get :
      ℕ
      → ℕ
      → ℕ
      → Result E Bytes
      → (AgentMasterCache → AgentMasterCache)
      → (AgentMasterCache → AgentMasterCache)
      → AgentMasterCache
      → AgentMasterCache × Result E Bytes
  unfolding get_from
  get first now later loaded waiting during c =
      get_from c.source first now later loaded waiting during c
