-- ===== src/Agent/MasterCache/Threads.antt =====
-- `get` of `AgentMasterCache` on many threads: the locked sections of different threads interleave,
-- and the `loading` lock is held from the second look at the cache until the load is stored.
use avault.Prelude.{ℕ, ◌-◌, ◌<◌, ◌≡◌, ◌≢◌, Option, none, some, arith, ◌==◌, if◌then◌else◌}
use avault.Prelude.Bytes.{Bytes}
use avault.Prelude.Result.{Result, ok, err}
use avault.Agent.MasterCache.{AgentMasterCache, purge, use_cached, store_loaded}

pub data Phase : Type 0 where
  outside waiting loading failed : Phase
  got : Bytes → Phase

pub record Threads : Type 0 where
  pub cache : AgentMasterCache
  pub lock : Option ℕ
  pub phases : ℕ → Phase

abbrev pub set_phase : ℕ → Phase → (ℕ → Phase) → ℕ → Phase
set_phase i p phases j = if i == j then p else phases j

-- The first look at the cache.
abbrev looked : ℕ → Threads → AgentMasterCache × Option Bytes → Threads
looked i g (c, some key) = record g { cache = c; phases = set_phase i (got key) g.phases }
looked i g (c, none) = record g { cache = c; phases = set_phase i waiting g.phases }

unfoldable pub look : ℕ → ℕ → Threads → Threads
look now i g = looked i g (use_cached now g.cache)

-- The lock is free: the thread takes it, looks again, and gives it back or keeps it to load.
abbrev entered : ℕ → Threads → AgentMasterCache × Option Bytes → Threads
entered i g (c, some key) = record g { cache = c; phases = set_phase i (got key) g.phases }
entered i g (c, none) = record g { cache = c; lock = some i; phases = set_phase i loading g.phases }

unfoldable pub enter : ℕ → ℕ → Threads → Threads
enter now i g = entered i g (use_cached now g.cache)

-- The loader returns.
unfoldable pub finish {ℓ} : {E : Type ℓ} → ℕ → ℕ → Result E Bytes → Threads → Threads
finish now i (ok key) g = record {
  cache = store_loaded now key g.cache;
  lock = none;
  phases = set_phase i (got key) g.phases;
}
finish now i (err e) g = record g { lock = none; phases = set_phase i failed g.phases }

pub data Step (E : Type 0) (g : Threads) : Threads → Type 0 where
  looks : (now i : ℕ) → g.phases i ≡ outside → Step E g (look now i g)
  enters : (now i : ℕ) → g.phases i ≡ waiting → g.lock ≡ none → Step E g (enter now i g)
  finishes :
      (now i : ℕ) (loaded : Result E Bytes)
      → g.phases i ≡ loading
      → Step E g (finish now i loaded g)
  purges : (now : ℕ) → Step E g (record g { cache = purge now g.cache })

pub data Reach (E : Type 0) (g : Threads) : Threads → Type 0 where
  here : Reach E g g
  next : {h k : Threads} → Reach E g h → Step E h k → Reach E g k

-- Only the holder of the lock loads.
abbrev pub Holds : Threads → Type 0
Holds g = (i : ℕ) → g.phases i ≡ loading → g.lock ≡ some i

looked-Holds :
    (i : ℕ) (g : Threads) (p : AgentMasterCache × Option Bytes) → Holds g → Holds (looked i g p)
looked-Holds i g (c, some key) v j h = ground (arith, v j)
looked-Holds i g (c, none) v j h = ground (arith, v j)

entered-Holds :
    (i : ℕ) (g : Threads) (p : AgentMasterCache × Option Bytes)
    → g.lock ≡ none
    → Holds g
    → Holds (entered i g p)
entered-Holds i g (c, some key) l v j h = ground (arith, v j)
entered-Holds i g (c, none) l v j h = ground (arith, v j)

Step-Holds : {E : Type 0} {g h : Threads} → Step E g h → Holds g → Holds h
unfolding look enter finish
Step-Holds {g} (looks now i p) v j h = looked-Holds i g (use_cached now g.cache) v j h
Step-Holds {g} (enters now i p l) v j h = entered-Holds i g (use_cached now g.cache) l v j h
Step-Holds (finishes now i (ok key) p) v j h = ground (arith, v i, v j)
Step-Holds (finishes now i (err e) p) v j h = ground (arith, v i, v j)
Step-Holds (purges now) v j h = v j h

Reach-Holds : {E : Type 0} {g h : Threads} → Reach E g h → Holds g → Holds h
Reach-Holds here v = v
Reach-Holds (next r st) v = Step-Holds st (Reach-Holds r v)

-- In every interleaving that starts with all threads outside, at most one thread loads the master
-- key from the store at a time.
pub single_flight :
    {E : Type 0} {g h : Threads} (i j : ℕ)
    → Reach E g h
    → ((k : ℕ) → g.phases k ≡ outside)
    → h.phases i ≡ loading
    → h.phases j ≡ loading
    → i ≡ j
single_flight {g} i j r start a b =
    let v = Reach-Holds r (λ k l. absurd (ground (arith, start k))) in ground (arith, v i, v j)

-- A thread that enters within the idle timeout after another thread finished a load takes that key
-- without loading.
pub enter-finish :
    (E : Type 0) (now later i j : ℕ) (key : Bytes) (g : Threads)
    → i ≢ j
    → later - now < g.cache.idle_timeout
    → (enter later j (finish {E = E} now i (ok key) g)).phases j ≡ got key
unfolding enter finish use_cached store_loaded
enter-finish E now later i j key g ne h = ground arith
