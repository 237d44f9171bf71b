-- ===== src/Agent/GrantRequest/Collect.antt =====
-- The loop over the keys of a grant request, and what it collects.
use avault.Prelude.{
  ℕ, suc, ◌+◌, ◌≤◌, min, ◌≡◌, refl, sym, ap, ◌∙◌, false, ◌||◌, List, [], ◌∷◌, ◌++◌, arith, is_some,
  length, length-append, All,
}
use avault.Prelude.Bytes.{Bytes, eq_bytes, eq_bytes_iff}
use avault.Prelude.Result.{Result, ok, ◌>>=◌, ◌>>◌, bail_if, map_err, bind-eq-ok, ok-injective}
use mathlib.Core.Path.{subst}
use avault.Prelude.Maps.{lookup}
use avault.Agent.Grants.{AgentDekPurpose, AgentDekKey, dek_key_eq}
use avault.Agent.Grants.Replay.{has_nonce}
use avault.BlindBox.{Hpke, open_blind_box, BlindBoxContext}
use avault.Agent.GrantRequest.{
  RequestError, duplicate_nonce, duplicate_dek, blind_box, ApprovalContext, AgentDekInput, Readings,
  Hex, validate_approval_not_expired, approval_expiry_instant, zeroizing_vec_to_key32,
  parse_approval_context, context_and_key,
}

-- `deks`, `used_nonces` and `grant_expires_at`.
pub record Collected : Type 0 where
  pub deks : List (AgentDekKey × Bytes)
  pub used_nonces : List (Bytes × ℕ)
  pub grant_expires_at : ℕ

module _ (h : Hpke) (hex : Hex) (private_key : Bytes) where
  -- The turn's last part: open the blind box and keep the key and the nonce.
  unfoldable pub keep_dek :
      Collected
      → AgentDekInput
      → ApprovalContext
      → ℕ
      → BlindBoxContext × AgentDekKey
      → Result RequestError Collected
  keep_dek c dek approval approval_expires_at (context, key) = do
    bail_if (is_some (lookup key c.deks)) duplicate_dek
    opened ← map_err blind_box (open_blind_box h private_key dek.dek_blindbox context)
    released_dek ← zeroizing_vec_to_key32 opened
    ok (record {
      deks = (key, released_dek) ∷ c.deks;
      used_nonces = c.used_nonces ++ (approval.nonce, approval_expires_at) ∷ [];
      grant_expires_at = min c.grant_expires_at approval_expires_at;
    })

  -- One turn of the loop.
  unfoldable pub add_dek :
      AgentDekPurpose
      → Bytes
      → ℕ
      → Collected
      → Readings × AgentDekInput
      → Result RequestError Collected
  unfolding keep_dek
  add_dek purpose grant_id ttl_secs c (clock, dek) = do
    approval ← parse_approval_context h hex dek.approval
    validate_approval_not_expired clock.validated_at approval.expires_at_unix
    approval_expires_at ←
        approval_expiry_instant clock.instant clock.system approval.expires_at_unix
    bail_if (has_nonce approval.nonce c.used_nonces) duplicate_nonce
    context ← context_and_key h hex purpose grant_id ttl_secs dek approval
    keep_dek c dek approval approval_expires_at context

  unfoldable pub add_deks :
      AgentDekPurpose
      → Bytes
      → ℕ
      → Collected
      → List (Readings × AgentDekInput)
      → Result RequestError Collected
  add_deks purpose grant_id ttl_secs c [] = ok c
  add_deks purpose grant_id ttl_secs c (dek ∷ deks) = do
    c' ← add_dek purpose grant_id ttl_secs c dek
    add_deks purpose grant_id ttl_secs c' deks

-- No nonce stands in the list twice.
abbrev pub Distinct : List (Bytes × ℕ) → Type 0
Distinct [] = Unit
Distinct (p ∷ ps) = (has_nonce p.0 ps ≡ false) × Distinct ps

-- The earliest of a time and those that stand with the nonces.
unfoldable pub earliest : ℕ → List (Bytes × ℕ) → ℕ
earliest limit [] = limit
earliest limit (p ∷ ps) = min p.1 (earliest limit ps)

-- What holds after each turn: one key and one nonce for each input, no nonce twice, and the earliest
-- expiry of all approvals and of the limit.
pub record IsSound (limit n : ℕ) (c : Collected) : Type 0 where
  pub keys_counted : length c.deks ≡ n
  pub nonces_counted : length c.used_nonces ≡ n
  pub distinct : Distinct c.used_nonces
  pub within : All (λ p. c.grant_expires_at ≤ p.1) c.used_nonces
  pub limited : c.grant_expires_at ≤ limit
  pub expires : c.grant_expires_at ≡ earliest limit c.used_nonces

earliest-append :
    (limit b : ℕ) (n : Bytes) (ps : List (Bytes × ℕ))
    → earliest limit (ps ++ (n, b) ∷ []) ≡ min (earliest limit ps) b
unfolding earliest
earliest-append limit b n [] = omega arith
earliest-append limit b n (p ∷ ps) = omega (arith, earliest-append limit b n ps)

has_nonce-append :
    (m : Bytes) (ps : List (Bytes × ℕ)) (p : Bytes × ℕ)
    → has_nonce m (ps ++ p ∷ []) ≡ (has_nonce m ps || eq_bytes p.0 m)
has_nonce-append m [] p = ground arith
has_nonce-append m (q ∷ ps) p = ground (arith, has_nonce-append m ps p)

Distinct-append :
    (ps : List (Bytes × ℕ)) (n : Bytes) (e : ℕ)
    → Distinct ps
    → has_nonce n ps ≡ false
    → Distinct (ps ++ (n, e) ∷ [])
Distinct-append [] n e d f = (refl, tt)
Distinct-append (p ∷ ps) n e (a, d) f = (
  ground (arith, has_nonce-append p.0 ps (n, e), eq_bytes_iff n p.0, eq_bytes_iff p.0 n),
  Distinct-append ps n e d (ground arith),
)

All-append_min :
    (a b : ℕ) (n : Bytes) (ps : List (Bytes × ℕ))
    → All (λ p. a ≤ p.1) ps
    → All (λ p. min a b ≤ p.1) (ps ++ (n, b) ∷ [])
All-append_min a b n [] h = (omega arith, tt)
All-append_min a b n (p ∷ ps) (h, hs) = (omega arith, All-append_min a b n ps hs)

-- The state after a turn that succeeds.
abbrev with_dek : Collected → AgentDekKey → Bytes → Bytes → ℕ → Collected
with_dek c key released_dek nonce approval_expires_at = record {
  deks = (key, released_dek) ∷ c.deks;
  used_nonces = c.used_nonces ++ (nonce, approval_expires_at) ∷ [];
  grant_expires_at = min c.grant_expires_at approval_expires_at;
}

with_dek-IsSound :
    (limit n : ℕ) (c : Collected) (key : AgentDekKey) (released_dek nonce : Bytes)
    (approval_expires_at : ℕ)
    → has_nonce nonce c.used_nonces ≡ false
    → IsSound limit n c
    → IsSound limit (suc n) (with_dek c key released_dek nonce approval_expires_at)
with_dek-IsSound limit n c key released_dek nonce approval_expires_at f v = record {
  keys_counted = ap suc v.keys_counted;
  nonces_counted = omega (
    arith,
    v.nonces_counted,
    length-append {0} c.used_nonces ((nonce, approval_expires_at) ∷ []),
  );
  distinct = Distinct-append c.used_nonces nonce approval_expires_at v.distinct f;
  within = All-append_min c.grant_expires_at approval_expires_at nonce c.used_nonces v.within;
  limited = omega (arith, v.limited);
  expires =
      ap (λ t. min t approval_expires_at) v.expires
      ∙ sym (earliest-append limit approval_expires_at nonce c.used_nonces);
}

module _ (h : Hpke) (hex : Hex) (private_key : Bytes) where
  keep_dek-eq-ok :
      (c : Collected) (dek : AgentDekInput) (approval : ApprovalContext) (e : ℕ)
      (k : BlindBoxContext × AgentDekKey) {c' : Collected}
      → keep_dek h hex private_key c dek approval e k ≡ ok c'
      → (released_dek : Bytes) × (c' ≡ with_dek c k.1 released_dek approval.nonce e)
  unfolding keep_dek
  keep_dek-eq-ok c dek approval e (context, key) q =
      let (u, fresh, q1) = bind-eq-ok (bail_if (is_some (lookup key c.deks)) duplicate_dek) _ q in
      let (opened, o, q2) =
        bind-eq-ok (map_err blind_box (open_blind_box h private_key dek.dek_blindbox context)) _
          q1 in
      let (released_dek, r, q3) = bind-eq-ok (zeroizing_vec_to_key32 opened) _ q2 in
      (released_dek, sym (ok-injective q3))

  add_dek-IsSound :
      (purpose : AgentDekPurpose) (grant_id : Bytes) (ttl_secs limit n : ℕ) (c : Collected)
      (dek : Readings × AgentDekInput) {c' : Collected}
      → add_dek h hex private_key purpose grant_id ttl_secs c dek ≡ ok c'
      → IsSound limit n c
      → IsSound limit (suc n) c'
  unfolding add_dek
  add_dek-IsSound purpose grant_id ttl_secs limit n c (clock, dek) q v =
      let (approval, a, q1) = bind-eq-ok (parse_approval_context h hex dek.approval) _ q in
      let (u, b, q2) =
        bind-eq-ok (validate_approval_not_expired clock.validated_at approval.expires_at_unix) _
          q1 in
      let (e, x, q3) =
        bind-eq-ok (approval_expiry_instant clock.instant clock.system approval.expires_at_unix) _
          q2 in
      let (u', fresh, q4) =
        bind-eq-ok (bail_if (has_nonce approval.nonce c.used_nonces) duplicate_nonce) _ q3 in
      let (k, y, q5) =
        bind-eq-ok (context_and_key h hex purpose grant_id ttl_secs dek approval) _ q4 in
      let (released_dek, z) = keep_dek-eq-ok c dek approval e k q5 in
      rw z (with_dek-IsSound limit n c k.1 released_dek approval.nonce e (ground arith) v)

  pub add_deks-IsSound :
      (purpose : AgentDekPurpose) (grant_id : Bytes) (ttl_secs limit n : ℕ) (c : Collected)
      (deks : List (Readings × AgentDekInput)) {c' : Collected}
      → add_deks h hex private_key purpose grant_id ttl_secs c deks ≡ ok c'
      → IsSound limit n c
      → IsSound limit (n + length deks) c'
  unfolding add_deks
  add_deks-IsSound purpose grant_id ttl_secs limit n c [] {c'} q v =
      let e : n ≡ n + 0 = omega arith in subst (λ m. IsSound limit m c') e (rw (← ok-injective q) v)
  add_deks-IsSound purpose grant_id ttl_secs limit n c (dek ∷ deks) {c'} q v =
      let (d, first, later) =
        bind-eq-ok (add_dek h hex private_key purpose grant_id ttl_secs c dek) _ q in
      subst (λ m. IsSound limit m c')
        (let e : suc n + length deks ≡ n + suc (length deks) = omega arith in e)
        (add_deks-IsSound purpose grant_id ttl_secs limit (suc n) d deks later
          (add_dek-IsSound purpose grant_id ttl_secs limit n c dek first v))
