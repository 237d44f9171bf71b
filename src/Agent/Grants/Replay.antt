-- ===== src/Agent/Grants/Replay.antt =====
-- An approval nonce is good for one grant: until it expires, no other grant is published with it.
use avault.Prelude.{
  ℕ, ◌≤◌, ◌<◌, ◌≡◌, refl, ap, ◌∙◌, ◌≢◌, inl, inr, Bool, true, false, some, List, [], ◌∷◌, ◌++◌,
  arith, Bool-cases, any,
}
use avault.Prelude.Bytes.{Bytes, eq_bytes, eq_bytes_iff}
use avault.Prelude.Result.{ok}
use avault.Agent.Grants.{
  GrantKey, GrantEntry, grant_key_eq, AgentState, purge, record_activity, any_used, publish_grant,
  release,
}
use avault.Prelude.Maps.{Map, insert, remove, extend, bytes_eq, beq_refl}
use avault.Agent.Grants.Steps.{Step, purges, records, looks, publishes, releases, Steps, here, next}

abbrev pub has_nonce : Bytes → List (Bytes × ℕ) → Bool
has_nonce n nonces = any (λ nonce. eq_bytes nonce.0 n) nonces

extend-fresh :
    (n : Bytes) (nonces : List (Bytes × ℕ)) (m : Map Bytes ℕ)
    → has_nonce n nonces ≡ false
    → extend nonces m n ≡ m n
extend-fresh n [] m h = refl
extend-fresh n ((k, e) ∷ nonces) m h = ground (arith, extend-fresh n nonces (insert k e m))

extend-some :
    (n : Bytes) (e : ℕ) (before after : List (Bytes × ℕ)) (m : Map Bytes ℕ)
    → has_nonce n after ≡ false
    → extend (before ++ (n, e) ∷ after) m n ≡ some e
extend-some n e [] after m h = extend-fresh n after (insert n e m) h ∙ ground (arith, beq_refl n)
extend-some n e ((k, d) ∷ before) after m h = extend-some n e before after (insert k d m) h

unused-fresh :
    (n : Bytes) (e : ℕ) (s : AgentState) (nonces : List (Bytes × ℕ))
    → s.used_grant_nonces n ≡ some e
    → any_used s nonces ≡ false
    → has_nonce n nonces ≡ false
unused-fresh n e s [] h u = refl
unused-fresh n e s ((k, d) ∷ nonces) h u = elim (Bool-cases (eq_bytes k n)) [
  | inl same ↦ absurd (ground (arith, ap s.used_grant_nonces ((eq_bytes_iff k n).0 same)))
  | inr other ↦ ground (arith, unused-fresh n e s nonces h)
]

purge-used :
    (now : ℕ) (s : AgentState) (n : Bytes) (e : ℕ)
    → s.used_grant_nonces n ≡ some e
    → now < e
    → (purge now s).used_grant_nonces n ≡ some e
unfolding purge
purge-used now s n e h l = ground arith

-- A nonce that is not yet used up by its expiry survives every publication.
publish_grant-used :
    (now later : ℕ) (s : AgentState) (scope : GrantKey) (grant : GrantEntry)
    (nonces : List (Bytes × ℕ)) (n : Bytes) (e : ℕ)
    → s.used_grant_nonces n ≡ some e
    → now < e
    → (publish_grant now later s scope grant nonces).0.used_grant_nonces n ≡ some e
unfolding publish_grant
publish_grant-used now later s scope grant nonces n e h l = ground (
  arith,
  purge-used now s n e h l,
  unused-fresh n e (purge now s) nonces,
  extend-fresh n nonces (purge now s).used_grant_nonces,
)

Step-time : {t : ℕ} {s : AgentState} {t' : ℕ} {s' : AgentState} → Step t s t' s' → t ≤ t'
Step-time (purges now h) = omega arith
Step-time (records now later h k) = omega arith
Step-time (looks now h) = omega arith
Step-time (publishes now later scope grant nonces h k) = omega arith
Step-time (releases now later last scope h k l) = omega arith

Step-used :
    {t : ℕ} {s : AgentState} {t' : ℕ} {s' : AgentState} (n : Bytes) (e : ℕ)
    → Step t s t' s'
    → t' < e
    → s.used_grant_nonces n ≡ some e
    → s'.used_grant_nonces n ≡ some e
unfolding record_activity release
Step-used {s} n e (purges now h) l u = purge-used now s n e u l
Step-used {s} n e (records now later h k) l u = purge-used now s n e u (omega arith)
Step-used n e (looks now h) l u = u
Step-used {s} n e (publishes now later scope grant nonces h k) l u =
    publish_grant-used now later s scope grant nonces n e u (omega arith)
Step-used {s} n e (releases now later last scope h k m) l u = ground (
  arith,
  purge-used now s n e u,
  purge-used later (record (purge now s) { grants = remove scope (purge now s).grants }) n e
      (purge-used now s n e u (omega arith)),
)

pub Steps-used :
    {t : ℕ} {s : AgentState} {t' : ℕ} {s' : AgentState} (n : Bytes) (e : ℕ)
    → Steps t s t' s'
    → t' < e
    → s.used_grant_nonces n ≡ some e
    → s'.used_grant_nonces n ≡ some e
Steps-used n e here l u = u
Steps-used n e (next r st) l u =
    Step-used n e st l (Steps-used n e r (omega (arith, Step-time st)) u)

publish_grant-records :
    (now later : ℕ) (s : AgentState) (scope : GrantKey) (grant : GrantEntry) (n : Bytes) (e : ℕ)
    (before after : List (Bytes × ℕ))
    → has_nonce n after ≡ false
    → (publish_grant now later s scope grant (before ++ (n, e) ∷ after)).1 ≡ ok tt
    → (publish_grant now later s scope grant (before ++ (n, e) ∷ after)).0.used_grant_nonces n
      ≡ some e
unfolding publish_grant
publish_grant-records now later s scope grant n e before after f h =
    ground (arith, extend-some n e before after (purge now s).used_grant_nonces f)

publish_grant-refused :
    (now later : ℕ) (s : AgentState) (scope : GrantKey) (grant : GrantEntry)
    (nonces : List (Bytes × ℕ)) (n : Bytes) (e : ℕ)
    → s.used_grant_nonces n ≡ some e
    → now < e
    → has_nonce n nonces ≡ true
    → (publish_grant now later s scope grant nonces).1 ≢ ok tt
unfolding publish_grant
publish_grant-refused now later s scope grant nonces n e u l h =
    ground (arith, purge-used now s n e u l, unused-fresh n e (purge now s) nonces)

-- An approval nonce that a published grant consumed, with no later entry of the list for it, is
-- refused in every other publication, after any history of steps, until its expiry.
pub publish_once :
    (now later now' later' : ℕ) {t : ℕ} (s : AgentState) {s' : AgentState} (scope scope' : GrantKey)
    (grant grant' : GrantEntry) (n : Bytes) (e : ℕ) (before after nonces : List (Bytes × ℕ))
    → has_nonce n after ≡ false
    → (publish_grant now later s scope grant (before ++ (n, e) ∷ after)).1 ≡ ok tt
    → Steps later (publish_grant now later s scope grant (before ++ (n, e) ∷ after)).0 t s'
    → t ≤ now'
    → now' < e
    → has_nonce n nonces ≡ true
    → (publish_grant now' later' s' scope' grant' nonces).1 ≢ ok tt
publish_once now later now' later' s {s'} scope scope' grant grant' n e before after nonces f h r m
      l k =
    publish_grant-refused now' later' s' scope' grant' nonces n e
      (Steps-used n e r (omega arith)
        (publish_grant-records now later s scope grant n e before after f h))
      l k
