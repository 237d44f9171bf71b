-- ===== src/Tests/CacheRuns.antt =====
-- The master cache and the admission of connections on concrete histories.
use avault.Prelude.{ℕ, ◌≡◌, refl, false, none, some, [], ◌∷◌, arith}
use avault.Prelude.Bytes.{Bytes, codes}
use avault.Prelude.Result.{ok}
use avault.Agent.Admission
use avault.Agent.Admission.{
  Admission, outside, admitted, holding, loads, attempts, attempt, IsBounded, Reach-IsBounded,
}
use avault.Agent.MasterCache.{
  AgentMasterCache, store, get, use_cached, expire, get_loading, get_loaded, store_loaded,
}
use avault.Agent.MasterCache.Get.{held_at, by_age, get-by_age}
use avault.Agent.MasterCache.Threads
use avault.Agent.MasterCache.Threads.{
  Threads, loading, got, look, enter, finish, single_flight, enter-finish,
}

abbrev quiet : Admission
quiet = record { active = 0; phases = outside ∷ [] }

Reach-IsBounded_example :
    IsBounded 1 (record { active = (attempt 1 0 0 false).0; phases = (attempt 1 0 0 false).1 ∷ [] })
Reach-IsBounded_example =
    Reach-IsBounded {g = quiet} (omega arith)
      (Admission.next (Admission.next Admission.here (loads [] [] refl))
        (attempts [] [] 0 false refl))
      (omega arith)

abbrev master : Bytes
master = codes "master"

abbrev cold : AgentMasterCache
cold = record { source = store; idle_timeout = 300; cached = none }

abbrev stale : AgentMasterCache
stale = record cold { cached = some (record { key = codes "old"; last_used = 10 }) }

reloads :
    get {E = ℕ} 310 311 312 (ok master) (λ c. c) (λ c. c) stale
    ≡ (held_at 312 master cold, ok master)
unfolding get use_cached expire get_loading get_loaded store_loaded
reloads = refl

get-by_age_example :
    get {E = ℕ} 310 311 312 (ok master) (λ c. c) (λ c. c) stale
    ≡ by_age store 310 311 312 (ok master) (λ c. c) (λ c. c) stale
get-by_age_example = get-by_age {E = ℕ} (ok master) 310 311 312 (λ c. c) (λ c. c) stale

abbrev outside_all : Threads
outside_all = record { cache = cold; lock = none; phases = λ i. Threads.outside }

abbrev one_loads : Threads
one_loads = enter 1 0 (look 0 0 outside_all)

zero_loads : one_loads.phases 0 ≡ loading
unfolding look enter use_cached expire
zero_loads = refl

zero_waits : (look 0 0 outside_all).phases 0 ≡ Threads.waiting
unfolding look use_cached expire
zero_waits = refl

lock_free : (look 0 0 outside_all).lock ≡ none
unfolding look use_cached expire
lock_free = refl

single_flight_example : ◌≡◌ {A = ℕ} 0 0
single_flight_example =
    single_flight {E = ℕ} {g = outside_all} {h = one_loads} 0 0
      (Threads.next (Threads.next Threads.here (Threads.looks 0 0 refl))
        (Threads.enters 1 0 zero_waits lock_free))
      (λ k. refl) zero_loads zero_loads
