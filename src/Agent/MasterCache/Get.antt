-- ===== src/Agent/MasterCache/Get.antt =====
-- `get` decides by the age of the key alone, whatever other threads do meanwhile.
use avault.Prelude.{
  ℕ, ◌-◌, ◌<◌, ◌≡◌, refl, ◌∙◌, inl, inr, true, false, Option, none, some, arith, ltb, leb,
  if◌then◌else◌, Bool-cases,
}
use avault.Prelude.Bytes.{Bytes}
use avault.Prelude.Result.{Result, ok, err}
use avault.Agent.MasterCache.{
  unless_hit, get_from, AgentMasterSource, unlocked, store, CachedMaster, AgentMasterCache, expire,
  use_cached, store_loaded, get_loaded, get_loading, get,
}

-- The key of the cache, if it was used less than the idle timeout before `now`.
abbrev pub fresh : ℕ → AgentMasterCache → Option Bytes
fresh now c = elim c.cached [
  | none ↦ none
  | some cached ↦ if ltb (now - cached.last_used) c.idle_timeout then some cached.key else none
]

abbrev pub held_at : ℕ → Bytes → AgentMasterCache → AgentMasterCache
held_at now key c = record c { cached = some (record { key = key; last_used = now }) }

abbrev pub emptied : AgentMasterCache → AgentMasterCache
emptied c = record c { cached = none }

module _ {E : Type 0} where
  -- The key of that cache, used now, or what is done where it has none.
  abbrev pub fresh_or :
      ℕ
      → (AgentMasterCache → AgentMasterCache × Result E Bytes)
      → AgentMasterCache
      → AgentMasterCache × Result E Bytes
  fresh_or now miss c = elim (fresh now c) [
    | some key ↦ (held_at now key c, ok key)
    | none ↦ miss (emptied c)
  ]

  abbrev pub loaded_at : ℕ → Result E Bytes → AgentMasterCache → AgentMasterCache × Result E Bytes
  loaded_at now (ok key) c = (held_at now key c, ok key)
  loaded_at now (err e) c = (c, err e)

  -- A source that was unlocked at startup gives its key. Otherwise a fresh key is given, then, after
  -- the wait for the lock, one that is fresh by now, and then what is loaded.
  abbrev pub by_age :
      AgentMasterSource
      → ℕ
      → ℕ
      → ℕ
      → Result E Bytes
      → (AgentMasterCache → AgentMasterCache)
      → (AgentMasterCache → AgentMasterCache)
      → AgentMasterCache
      → AgentMasterCache × Result E Bytes
  by_age (unlocked master) first now later loaded waiting during c = (c, ok master)
  by_age store first now later loaded waiting during c =
      fresh_or first
        (λ seen. fresh_or now (λ again. loaded_at later loaded (during again)) (waiting seen)) c

  use_cached-fresh :
      (now : ℕ) (miss : AgentMasterCache → AgentMasterCache × Result E Bytes) (c : AgentMasterCache)
      → unless_hit (use_cached now c) miss ≡ fresh_or now miss c
  unfolding use_cached expire
  use_cached-fresh now miss c = at c.cached
    where
      at :
          (o : Option CachedMaster)
          → let c' = record c { cached = o } in
            unless_hit (use_cached now c') miss ≡ fresh_or now miss c'
      at none = refl
      at (some cached) = elim (Bool-cases (leb c.idle_timeout (now - cached.last_used))) [
        | inl e ↦
            let late : ltb (now - cached.last_used) c.idle_timeout ≡ false = ground arith in
            rw (e, fresh_or, late) refl
        | inr e ↦
            let early : ltb (now - cached.last_used) c.idle_timeout ≡ true = ground arith in
            rw (e, fresh_or, early) refl
      ]

  get_loaded-at :
      (now : ℕ) (loaded : Result E Bytes) (c : AgentMasterCache)
      → get_loaded now loaded c ≡ loaded_at now loaded c
  unfolding get_loaded store_loaded
  get_loaded-at now (ok key) c = refl
  get_loaded-at now (err e) c = refl

  fresh_or-same :
      (now : ℕ) (miss miss' : AgentMasterCache → AgentMasterCache × Result E Bytes)
      (c : AgentMasterCache)
      → ((seen : AgentMasterCache) → miss seen ≡ miss' seen)
      → fresh_or now miss c ≡ fresh_or now miss' c
  fresh_or-same now miss miss' c same =
      elim (fresh now c)
        as (λ o.
          elim o [ some key ↦ (held_at now key c, ok key) | none ↦ miss (emptied c) ]
          ≡ elim o [ some key ↦ (held_at now key c, ok key) | none ↦ miss' (emptied c) ]) [
            | none ↦ same (emptied c)
            | some key ↦ refl
          ]

-- Whatever the loader returns and other threads do meanwhile, get gives a key that was unlocked at
-- startup as it is, and otherwise decides by age alone: it gives the cached key if that was used
-- less than the idle timeout ago, else, after the wait for the lock, a cached key that is fresh by
-- then, else what the loader returns; it leaves in the cache the key that it gave, with the time
-- of its use, or, where the loader fails, what the other threads left.
pub get-by_age :
    {E : Type 0} (loaded : Result E Bytes) (first now later : ℕ)
    (waiting during : AgentMasterCache → AgentMasterCache) (c : AgentMasterCache)
    → get first now later loaded waiting during c
      ≡ by_age c.source first now later loaded waiting during c
unfolding get
get-by_age {E} loaded first now later waiting during c = from c.source
  where
    from :
        (source : AgentMasterSource)
        → get_from source first now later loaded waiting during c
          ≡ by_age source first now later loaded waiting during c
    from (unlocked key) = refl
    from store =
        use_cached-fresh first (λ seen. get_loading now later loaded during (waiting seen)) c
        ∙ fresh_or-same first (λ seen. get_loading now later loaded during (waiting seen))
            (λ seen. fresh_or now (λ again. loaded_at later loaded (during again)) (waiting seen)) c
            (λ seen.
              use_cached-fresh now (λ again. get_loaded later loaded (during again)) (waiting seen)
              ∙ fresh_or-same now (λ again. get_loaded later loaded (during again))
                  (λ again. loaded_at later loaded (during again)) (waiting seen)
                  (λ again. get_loaded-at later loaded (during again)))

-- A key that was used less than the idle timeout ago is served without the store, whatever the
-- loader would return, and counts as used.
get_again :
    {E : Type 0} (loaded : Result E Bytes) (first now later : ℕ)
    (waiting during : AgentMasterCache → AgentMasterCache) (c : AgentMasterCache)
    (cached : CachedMaster)
    → c.source ≡ store
    → c.cached ≡ some cached
    → first - cached.last_used < c.idle_timeout
    → get first now later loaded waiting during c
      ≡ (record c { cached = some (record cached { last_used = first }) }, ok cached.key)
unfolding get use_cached
get_again loaded first now later waiting during c cached s e h = ground arith
