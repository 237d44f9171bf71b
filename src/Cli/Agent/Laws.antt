-- ===== src/Cli/Agent/Laws.antt =====
-- What the options of the agent promise, and that written options are read back.
use avault.Prelude.{
  ℕ, ◌+◌, ◌-◌, ◌*◌, ◌<◌, ◌≡◌, refl, sym, ap, ◌∙◌, inl, inr, Bool, true, false, not, ◌&&◌, Option,
  none, some, List, [], ◌∷◌, arith, ltb, ◌==◌, if◌then◌else◌, Option-cases, is_some,
}
use avault.Prelude.Bytes.{Bytes, codes, eq_bytes}
use avault.Prelude.Result.{
  ok, err, ◌>>=◌, bail_if, or_fail, bind-eq-ok, or_fail-eq-ok, ok-injective,
}
use avault.Inject.{utf8_from, is_utf8}
use avault.Cli.{
  not_utf8, unknown_option, value_required, timeout_not_integer, unlock_requires_passphrase,
  home_not_set, StoreSelection, auto, keychain, tpm, file, file_passphrase, to_str, store_name,
  parse_store-store_name,
}
use avault.Cli.Agent.{
  default_agent_idle_timeout_secs, AgentOptions, AgentFlag, socket_flag, timeout_flag, store_flag,
  unlock_flag, AgentTargets, agent_flag, take_flag, waits, take_value, is_file_passphrase,
  default_agent_socket_path, finish_options, agent_loop, parse_agent_options,
}
use avault.Prelude.Text.{to_string}
use avault.Store.Keychain.Cooldown.{u64_end, parse_digits, parse_u64}
use avault.Store.Keychain.Cooldown.Decimal.{IsDigits, parse_u64-printed}

parse_digits-bound : (xs : Bytes) (n m : ℕ) → n < u64_end → parse_digits n xs ≡ some m → m < u64_end
unfolding parse_digits
parse_digits-bound [] n m h e = ground arith
parse_digits-bound (x ∷ xs) n m h e = ground (arith, parse_digits-bound xs (n * 10 + (x - 48)) m)

parse_u64-bound : (xs : Bytes) (n : ℕ) → parse_u64 xs ≡ some n → n < u64_end
unfolding parse_u64
parse_u64-bound [] n h = cc
parse_u64-bound (x ∷ []) n h = ground (arith, parse_digits-bound (x ∷ []) 0 n)
parse_u64-bound (x ∷ y ∷ xs) n h =
    ground (arith, parse_digits-bound (y ∷ xs) 0 n, parse_digits-bound (x ∷ y ∷ xs) 0 n)

abbrev IsTimed : AgentTargets → Type 0
IsTimed t = (0 < t.idle_timeout_secs) × (t.idle_timeout_secs < u64_end)

take_flag-IsTimed :
    (flag : AgentFlag) (t u : AgentTargets) → IsTimed t → take_flag flag t ≡ ok u → IsTimed u
take_flag-IsTimed socket_flag t u h e = ground arith
take_flag-IsTimed timeout_flag t u h e = ground arith
take_flag-IsTimed store_flag t u h e = ground arith
take_flag-IsTimed unlock_flag t u h e = ground arith

take_value-IsTimed :
    (flag : AgentFlag) (value : Bytes) (t u : AgentTargets)
    → IsTimed t
    → take_value flag value t ≡ ok u
    → IsTimed u
unfolding take_value
take_value-IsTimed socket_flag value t u h e = ground arith
take_value-IsTimed timeout_flag value t u h e =
    let (secs, p, e₁) = bind-eq-ok (or_fail (parse_u64 value) timeout_not_integer) _ e in
    let parsed = or_fail-eq-ok (parse_u64 value) timeout_not_integer p in
    ground (arith, e₁, parse_u64-bound value secs parsed)
take_value-IsTimed store_flag value t u h e = ground arith
take_value-IsTimed unlock_flag value t u h e = ground arith

agent_loop-IsTimed :
    (args : List Bytes) (waiting : Option AgentFlag) (t u : AgentTargets)
    → IsTimed t
    → agent_loop args waiting t ≡ ok u
    → IsTimed u
unfolding agent_loop
agent_loop-IsTimed [] (some flag) t u h e = cc
agent_loop-IsTimed [] none t u h e = ground arith
agent_loop-IsTimed (arg ∷ args) (some flag) t u h e = elim (Option-cases (to_str arg)) [
  | inl c ↦ let bad : err value_required ≡ ok u = rw (c, agent_loop) at e in cc
  | inr (value, c) ↦
      let (v, k, e₁) =
        bind-eq-ok (take_value flag value t) (agent_loop args none) (rw (c, agent_loop) at e) in
      agent_loop-IsTimed args none v u (take_value-IsTimed flag value t v h k) e₁
]
agent_loop-IsTimed (arg ∷ args) none t u h e = elim (Option-cases (to_str arg)) [
  | inl c ↦ let bad : err not_utf8 ≡ ok u = rw (c, agent_loop) at e in cc
  | inr (text, c) ↦ elim (Option-cases (agent_flag text)) [
    | inl d ↦ let bad : err unknown_option ≡ ok u = rw (c, d, agent_loop) at e in cc
    | inr (flag, d) ↦
        let e' : (take_flag flag t >>= agent_loop args (waits flag)) ≡ ok u =
          rw (c, d, agent_loop) at e in
        let (v, k, e₁) = bind-eq-ok (take_flag flag t) (agent_loop args (waits flag)) e' in
        agent_loop-IsTimed args (waits flag) v u (take_flag-IsTimed flag t v h k) e₁
  ]
]

passphrase_store :
    (store : StoreSelection) → is_file_passphrase store ≡ true → store ≡ file_passphrase
unfolding is_file_passphrase
passphrase_store auto h = cc
passphrase_store keychain h = cc
passphrase_store tpm h = cc
passphrase_store file h = cc
passphrase_store file_passphrase h = refl

finish_options-accepted :
    (home : Option Bytes) (t : AgentTargets) (o : AgentOptions)
    → finish_options home t ≡ ok o
    → (o.idle_timeout ≡ t.idle_timeout_secs)
      × (o.unlock ≡ true → o.store ≡ file_passphrase)
      × (is_some home ≡ true)
unfolding finish_options default_agent_socket_path
finish_options-accepted home t o e =
    let (_, u, e₁) =
      bind-eq-ok (bail_if (t.unlock && not (is_file_passphrase t.store)) unlock_requires_passphrase)
        _ e in
    let (_, p, e₂) = bind-eq-ok (default_agent_socket_path home) _ e₁ in
    let (given, q, _) = bind-eq-ok (or_fail home home_not_set) _ p in
    let set = or_fail-eq-ok home home_not_set q in
    let made = ok-injective e₂ in
    let is_set : is_some home ≡ true = rw set refl in
    (
      ap (λ r. r.idle_timeout) (sym made),
      λ h.
          ap (λ r. r.store) (sym made)
          ∙ passphrase_store t.store (ground (arith, u, ap (λ r. r.unlock) made, h)),
      is_set,
    )

-- Whatever the arguments, options that the agent accepts have a positive time below 2^64 until it
-- is idle, ask for unlocking with the passphrase store only, and are accepted only where HOME is
-- set, also with a socket given.
pub parse_agent_options-accepted :
    (home : Option Bytes) (store : StoreSelection) (args : List Bytes) (o : AgentOptions)
    → parse_agent_options home store args ≡ ok o
    → (0 < o.idle_timeout)
      × (o.idle_timeout < u64_end)
      × (o.unlock ≡ true → o.store ≡ file_passphrase)
      × (is_some home ≡ true)
unfolding parse_agent_options
parse_agent_options-accepted home store args o e =
    let (t, k, e₁) = bind-eq-ok (agent_loop args none _) (finish_options home) e in
    let (low, high) = agent_loop-IsTimed args none _ t (omega arith) k in
    let (time, unlocks, set) = finish_options-accepted home t o e₁ in
    (rw time low, rw time high, unlocks, set)

-- The arguments of the options that are given.
abbrev pub agent_args : Bytes → ℕ → StoreSelection → Bool → List Bytes
agent_args path secs store unlock =
    codes "--idle-timeout-secs"
    ∷ to_string secs
    ∷ codes "--socket"
    ∷ path
    ∷ codes "--store"
    ∷ store_name store
    ∷ (if unlock then codes "--unlock" ∷ [] else [])

value_step :
    (flag : AgentFlag) (value : Bytes) (args : List Bytes) (t u : AgentTargets)
    → is_utf8 value ≡ true
    → take_value flag value t ≡ ok u
    → agent_loop (value ∷ args) (some flag) t ≡ agent_loop args none u
unfolding agent_loop
value_step flag value args t u h e = rw (h, agent_loop) (rw e refl)

digits-is_utf8 : (cs : Bytes) → IsDigits cs → is_utf8 cs ≡ true
unfolding utf8_from
digits-is_utf8 [] h = refl
digits-is_utf8 (c ∷ cs) (d, ds) =
    let ascii : ltb c 128 ≡ true = ground arith in rw (ascii, utf8_from) (digits-is_utf8 cs ds)

store_name-is_utf8 : (store : StoreSelection) → is_utf8 (store_name store) ≡ true
unfolding utf8_from
store_name-is_utf8 auto = refl
store_name-is_utf8 keychain = refl
store_name-is_utf8 tpm = refl
store_name-is_utf8 file = refl
store_name-is_utf8 file_passphrase = refl

take_timeout :
    (t : AgentTargets) (secs : ℕ)
    → 0 < secs
    → secs < u64_end
    → take_value timeout_flag (to_string secs) t ≡ ok (record t { idle_timeout_secs = secs })
unfolding take_value
take_timeout t secs low high =
    let positive : (secs == 0) ≡ false = ground arith in
    rw ((parse_u64-printed secs high).0, positive) refl

take_store :
    (t : AgentTargets) (store : StoreSelection)
    → take_value store_flag (store_name store) t ≡ ok (record t { store = store })
unfolding take_value
take_store t store = rw (parse_store-store_name store) refl

start : StoreSelection → AgentTargets
start store = record {
  socket_path = none;
  idle_timeout_secs = default_agent_idle_timeout_secs;
  store = store;
  unlock = false;
}

agent_loop-agent_args :
    (path : Bytes) (secs : ℕ) (store before : StoreSelection) (unlock : Bool)
    → is_utf8 path ≡ true
    → 0 < secs
    → secs < u64_end
    → agent_loop (agent_args path secs store unlock) none (start before)
      ≡ ok (record {
        socket_path = some path;
        idle_timeout_secs = secs;
        store = store;
        unlock = unlock;
      })
unfolding agent_loop agent_flag eq_bytes utf8_from start
agent_loop-agent_args path secs store before unlock h low high =
    let ends = if unlock then codes "--unlock" ∷ [] else [] in
    let t₁ = record (start before) { idle_timeout_secs = secs } in
    let t₂ = record t₁ { socket_path = some path } in
    let t₃ = record t₂ { store = store } in
    value_step timeout_flag (to_string secs)
      (codes "--socket" ∷ path ∷ codes "--store" ∷ store_name store ∷ ends) (start before) t₁
      (digits-is_utf8 (to_string secs) (parse_u64-printed secs high).1)
      (take_timeout (start before) secs low high)
    ∙ value_step socket_flag path (codes "--store" ∷ store_name store ∷ ends) t₁ t₂ h
        (unfold take_value in refl)
    ∙ value_step store_flag (store_name store) ends t₂ t₃ (store_name-is_utf8 store)
        (take_store t₂ store)
    ∙ elim unlock
        as (λ b.
          agent_loop (if b then codes "--unlock" ∷ [] else []) none t₃
          ≡ ok (record t₃ { unlock = b })) [ true ↦ refl | false ↦ refl ]

-- The options of the agent, written as arguments with time, socket, store and unlock in that
-- order, are read back whatever the global store, if HOME is set, the path is UTF-8, the time is
-- positive and below 2^64, and unlocking comes with the passphrase store.
pub parse_agent_options-agent_args :
    (home path : Bytes) (secs : ℕ) (before store : StoreSelection) (unlock : Bool)
    → is_utf8 path ≡ true
    → 0 < secs
    → secs < u64_end
    → (unlock ≡ true → store ≡ file_passphrase)
    → parse_agent_options (some home) before (agent_args path secs store unlock)
      ≡ ok (record { socket_path = path; idle_timeout = secs; store = store; unlock = unlock })
unfolding parse_agent_options finish_options default_agent_socket_path start
parse_agent_options-agent_args home path secs before store unlock h low high u =
    ap (λ r. r >>= finish_options (some home))
      (agent_loop-agent_args path secs store before unlock h low high)
    ∙ elim unlock
          as (λ b.
            (b ≡ true → store ≡ file_passphrase)
            → finish_options (some home) (record {
              socket_path = some path;
              idle_timeout_secs = secs;
              store = store;
              unlock = b;
            })
              ≡ ok
                  (record { socket_path = path; idle_timeout = secs; store = store; unlock = b })) [
                    | true ↦ λ only. rw (only refl) (unfold is_file_passphrase in refl)
                    | false ↦ λ _. refl
                  ]
        u
