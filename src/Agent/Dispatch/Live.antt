-- ===== src/Agent/Dispatch/Live.antt =====
-- Nothing leaves the agent without a grant.
use avault.Prelude.{
  ◌≡◌, refl, sym, ap, ◌≢◌, inl, inr, Bool, true, Option, none, some, [], ◌∷◌, Option-cases,
}
use avault.Prelude.Bytes.{Bytes}
use avault.Prelude.Result.{
  Result, ok, err, bail_if, map_err, is_ok, Result-cases, bind-eq-ok, ok-injective,
}
use avault.Core.Signing.{Curve, from_str}
use avault.Agent.Grants.{GrantKey, GrantEntry, get_live_grant}
use avault.Agent.GrantRequest.{grant_key_from_id, decode_hex_32}
use avault.Agent.Use.{UseError, AgentShared, Turn, open_with_grant}
use avault.Inject.{validate_inject_request}
use avault.Fetch.{validate_fetch_input}
use avault.Wire.Helper.{is_empty}
use avault.Agent.Dispatch.{
  AgentError, command_required, secret_required, bad_request, unusable, fetch_refused,
  inject_refused, sign_failed, AgentRunDeliverRequest, AgentFetchDeliverRequest,
  AgentInjectDeliverRequest, AgentSignRequest, AgentRequest, pubkey, grant_request, release_request,
  revoke_request, deliver_run, deliver_fetch, deliver_inject, sign_request, Outcome, Clock,
  reject_agent_env_one_shot_fields, reject_agent_named_one_shot_fields, check_run, then_act,
  checked, System,
}
use avault.Agent.Dispatch.Handle.{
  run_child, handle_run, check_fetch, fetch_with, handle_fetch, check_inject, write_inject,
  handle_inject, signed_with, sign_digest_with_key, check_sign, handle_sign, handle_grant_request,
  handle_release, handle_agent_request, handle_agent_frame_inner,
}
use avault.Agent.Use.Checks.{open_with_grant-OpenedUnder, agent_at_check}

-- A grant of the scope was live on arrival, and again when the secrets were opened.
abbrev pub WasLive : Turn → GrantKey → AgentShared → Type 0
WasLive t scope agent =
    (is_ok (get_live_grant t.first agent.state scope) ≡ true)
    × (needs : Bool) × (grant : GrantEntry) × (get_live_grant t.second
          (agent_at_check t needs agent).state scope
        ≡ ok grant)

then_act-WasLive :
    {T : Type 0} (t : Turn) (scope : GrantKey) (needs : Bool)
    (opener : GrantEntry → Option Bytes → Result UseError T) (act : AgentShared → T → Outcome)
    (agent : AgentShared)
    → (then_act act (open_with_grant t scope needs opener agent)).1 ≢ []
    → WasLive t scope agent
then_act-WasLive t scope needs opener act agent h =
    elim (Result-cases (open_with_grant t scope needs opener agent).1) [
      | inl (opened, e) ↦
          let under = open_with_grant-OpenedUnder t scope needs opener agent e in
          (under.was_live, needs, under.grant, under.still_live)
      | inr (x, e) ↦ absurd (h (rw (e, then_act) refl))
    ]

checked-effects :
    {A : Type 0} (agent : AgentShared) (go : A → Outcome) (r : Result AgentError A)
    → (checked agent go r).1 ≢ []
    → (a : A) × (r ≡ ok a) × ((go a).1 ≢ [])
checked-effects agent go (ok a) h = (a, refl, h)
checked-effects agent go (err e) h = absurd (h refl)

scope_named :
    (grant_id : Bytes) (scope : GrantKey)
    → map_err bad_request (grant_key_from_id grant_id) ≡ ok scope
    → scope.grant_id ≡ grant_id
unfolding grant_key_from_id
scope_named [] scope h = cc
scope_named (c ∷ cs) scope h = ap (λ s. s.grant_id) (sym (ok-injective h))

-- The grant that a request uses.
abbrev pub delivers : AgentRequest → Option Bytes
delivers (deliver_run request) = some request.grant_id
delivers (deliver_fetch request) = some request.grant_id
delivers (deliver_inject request) = some request.grant_id
delivers (sign_request request) = some request.grant_id
delivers _ = none

-- A request that uses a grant that was live.
abbrev pub Covered : Turn → AgentShared → AgentRequest → Type 0
Covered t agent request =
    (scope : GrantKey) × (delivers request ≡ some scope.grant_id) × WasLive t scope agent

module _ (y : System) (k : Curve) where
  run-Covered :
      (t : Turn) (request : AgentRunDeliverRequest) (agent : AgentShared)
      → (handle_run y k t request agent).1 ≢ []
      → Covered t agent (deliver_run request)
  unfolding handle_run check_run
  run-Covered t request agent h =
      let (scope, e, h₁) = checked-effects agent _ (check_run request) h in
      let (_, _, e₁) = bind-eq-ok (bail_if (is_empty request.command) command_required) _ e in
      let (_, _, e₂) = bind-eq-ok (bail_if (is_empty request.secrets) secret_required) _ e₁ in
      let (_, _, e₃) =
        bind-eq-ok (map_err unusable (reject_agent_env_one_shot_fields request.secrets)) _ e₂ in
      (
        scope,
        ap some (sym (scope_named request.grant_id scope e₃)),
        then_act-WasLive t scope _ _ (run_child y k request.command) agent h₁,
      )

  fetch-Covered :
      (t : Turn) (request : AgentFetchDeliverRequest) (agent : AgentShared)
      → (handle_fetch y k t request agent).1 ≢ []
      → Covered t agent (deliver_fetch request)
  unfolding handle_fetch check_fetch
  fetch-Covered t request agent h =
      let ((scope, is_loopback), e, h₁) = checked-effects agent _ (check_fetch y k request) h in
      let (_, _, e₁) =
        bind-eq-ok (map_err fetch_refused (validate_fetch_input y.urls request.request)) _ e in
      let (named, e₂, e₃) =
        bind-eq-ok (map_err bad_request (grant_key_from_id request.grant_id)) _ e₁ in
      let same : named ≡ scope = ap (λ p. p.0) (ok-injective e₃) in
      (
        scope,
        ap some (sym (scope_named request.grant_id scope (rw same at e₂))),
        then_act-WasLive t scope _ _ (fetch_with y k request.request is_loopback) agent h₁,
      )

  inject-Covered :
      (t : Turn) (request : AgentInjectDeliverRequest) (agent : AgentShared)
      → (handle_inject y k t request agent).1 ≢ []
      → Covered t agent (deliver_inject request)
  unfolding handle_inject check_inject
  inject-Covered t request agent h =
      let ((scope, format), e, h₁) = checked-effects agent _ (check_inject y k request) h in
      let (named, e₁, e₂) =
        bind-eq-ok (map_err bad_request (grant_key_from_id request.grant_id)) _ e in
      let (_, _, e₃) =
        bind-eq-ok (map_err unusable (reject_agent_named_one_shot_fields request.secrets)) _ e₂ in
      let (_, _, e₄) =
        bind-eq-ok (map_err inject_refused (validate_inject_request request.secrets request.format))
          _ e₃ in
      let same : named ≡ scope = ap (λ p. p.0) (ok-injective e₄) in
      (
        scope,
        ap some (sym (scope_named request.grant_id scope (rw same at e₁))),
        then_act-WasLive t scope _ _ (write_inject y k request.path) agent h₁,
      )

  sign-Covered :
      (t : Turn) (request : AgentSignRequest) (agent : AgentShared)
      → (handle_sign y k t request agent).1 ≢ []
      → Covered t agent (sign_request request)
  unfolding handle_sign check_sign
  sign-Covered t request agent h =
      let ((scope, digest, scheme), e, h₁) = checked-effects agent _ (check_sign y k request) h in
      let (named, e₁, e₂) =
        bind-eq-ok (map_err bad_request (grant_key_from_id request.grant_id)) _ e in
      let (_, _, e₃) =
        bind-eq-ok (map_err bad_request (decode_hex_32 y.hpke y.hex request.digest)) _ e₂ in
      let (_, _, e₄) = bind-eq-ok (map_err sign_failed (from_str request.scheme)) _ e₃ in
      let same : named ≡ scope = ap (λ p. p.0) (ok-injective e₄) in
      (
        scope,
        ap some (sym (scope_named request.grant_id scope (rw same at e₁))),
        then_act-WasLive t scope _ _
            (λ after key_plaintext.
              signed_with y k after (sign_digest_with_key y k scheme digest key_plaintext))
            agent h₁,
      )

  release-silent :
      (clock : Clock) (grant_id : Bytes) (agent : AgentShared)
      → (handle_release y k clock grant_id agent).1 ≢ []
      → ⊥
  unfolding handle_release
  release-silent clock grant_id agent h =
      let (scope, _, h₁) =
        checked-effects agent _ (map_err bad_request (grant_key_from_id grant_id)) h in
      h₁ refl

  handle_agent_request-Covered :
      (t : Turn) (clock : Clock) (request : AgentRequest) (agent : AgentShared)
      → (handle_agent_request y k t clock request agent).1 ≢ []
      → Covered t agent request
  unfolding handle_agent_request handle_grant_request
  handle_agent_request-Covered t clock pubkey agent h = absurd (h refl)
  handle_agent_request-Covered t clock (grant_request request) agent h = absurd (h refl)
  handle_agent_request-Covered t clock (release_request grant_id) agent h =
      absurd (release-silent clock grant_id agent h)
  handle_agent_request-Covered t clock (revoke_request grant_id) agent h =
      absurd (release-silent clock grant_id agent h)
  handle_agent_request-Covered t clock (deliver_run request) agent h = run-Covered t request agent h
  handle_agent_request-Covered t clock (deliver_fetch request) agent h =
      fetch-Covered t request agent h
  handle_agent_request-Covered t clock (deliver_inject request) agent h =
      inject-Covered t request agent h
  handle_agent_request-Covered t clock (sign_request request) agent h =
      sign-Covered t request agent h

  -- Whatever the frame and the state, when handling it runs a command, sends a fetch request,
  -- writes a file or returns a signature, the frame was read as a request that names a grant, and
  -- that grant was live when the request came and again when its secrets were opened.
  pub handle_agent_frame_inner-Covered :
      (t : Turn) (clock : Clock) (frame : Bytes) (agent : AgentShared)
      → (handle_agent_frame_inner y k t clock frame agent).1 ≢ []
      → (request : AgentRequest) × (y.read_frame frame ≡ some request) × Covered t agent request
  unfolding handle_agent_frame_inner
  handle_agent_frame_inner-Covered t clock frame agent h =
      elim (Option-cases (y.read_frame frame)) [
        | inl e ↦ absurd (h (rw (e, handle_agent_frame_inner) refl))
        | inr (request, e) ↦ (
          request,
          e,
          handle_agent_request-Covered t clock request agent
              (rw (e, handle_agent_frame_inner) at h),
        )
      ]
