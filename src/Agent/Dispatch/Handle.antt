-- ===== src/Agent/Dispatch/Handle.antt =====
-- The branches of `handle_agent_frame_inner`, and the frame.
use avault.Prelude.{Bool, false, Option, none, some, List, [], ◌∷◌, if◌then◌else◌, is_some, any}
use avault.Prelude.Bytes.{Bytes}
use avault.Prelude.Result.{Result, ok, err, ◌>>=◌, ◌>>◌, map_err}
use avault.Core.Signing.{SignatureScheme, SignatureResult, Curve, from_str, sign_digest}
use avault.Agent.Grants.{GrantKey, GrantEntry, release}
use avault.Agent.GrantRequest.{
  AgentGrantRequest, grant_key_from_id, decode_hex_32, zeroizing_vec_to_key32,
}
use avault.Agent.GrantRequest.Handle.{handle_grant}
use avault.Agent.Use.{
  UseError, render_failed, EnvSecretInput, NamedSecretInput, OpenedSecret, AgentShared, Turn,
  open_with_grant, open_agent_secret, open_signing_key_with_grant,
}
use avault.Agent.Use.Secrets.{open_env_secrets_for_agent, open_named_secrets_for_agent}
use avault.Inject.{validate_inject_request, render_inject_file}
use avault.Fetch.{FetchRequest, validate_fetch_input}
use avault.Fetch.Execute.{ExecuteError, Prepared, prepare_fetch, execute_fetch_request}
use avault.Wire.Helper.{write_agent_run_helper_frame}
use avault.Agent.Dispatch.{
  AgentError, frame_invalid, run_failed, write_failed, bad_request, unusable, fetch_refused,
  fetch_failed, inject_refused, helper_failed, sign_failed, AgentRunDeliverRequest,
  AgentFetchDeliverRequest, AgentInjectDeliverRequest, AgentSignRequest, AgentRequest, pubkey,
  grant_request, release_request, revoke_request, deliver_run, deliver_fetch, deliver_inject,
  sign_request, key_pair, granted, released, exited, fetched, injected, signature, Effect, ran,
  sent, wrote, signed, Outcome, Clock, is_standard, reject_agent_named_one_shot_fields, check_run,
  status_to_exit_code, then_act, checked, System,
}

module _ (y : System) (k : Curve) where
  abbrev pub parses : Bytes → Bool
  parses url = is_some (y.urls.parse url)

  -- `run_agent_child_with_opened_env`: without a whole frame the helper runs nothing.
  unfoldable pub run_child : List Bytes → AgentShared → List OpenedSecret → Outcome
  run_child command agent opened = elim (write_agent_run_helper_frame opened) [
    | err e ↦ (agent, [], err (helper_failed e))
    | ok frame ↦ elim (y.run command frame) [
      | none ↦ (agent, ran command frame ∷ [], err run_failed)
      | some status ↦ (agent, ran command frame ∷ [], ok (exited (status_to_exit_code status)))
    ]
  ]

  unfoldable pub handle_run : Turn → AgentRunDeliverRequest → AgentShared → Outcome
  handle_run t request agent =
      checked agent
        (λ scope. then_act (run_child request.command) (
          open_with_grant t scope (any (λ (s : EnvSecretInput). is_standard s.tier) request.secrets)
            (open_env_secrets_for_agent y.crypto y.hex request.secrets) agent))
        (check_run request)

  unfoldable pub check_fetch : AgentFetchDeliverRequest → Result AgentError (GrantKey × Bool)
  check_fetch request = do
    (url, is_loopback) ← map_err fetch_refused (validate_fetch_input y.urls request.request)
    scope ← map_err bad_request (grant_key_from_id request.grant_id)
    ok (scope, is_loopback)

  -- What is sent, if the credential fits the request.
  abbrev pub sent_of : Result ExecuteError Prepared → List Effect
  sent_of (ok prepared) = sent prepared ∷ []
  sent_of (err e) = []

  unfoldable pub fetch_with : FetchRequest → Bool → AgentShared → Bytes → Outcome
  fetch_with request is_loopback agent secret = (
    agent,
    sent_of (prepare_fetch parses request.inject request.url secret),
    map_err fetch_failed (execute_fetch_request parses y.client request secret is_loopback)
        >>= λ output. ok (fetched output),
  )

  unfoldable pub handle_fetch : Turn → AgentFetchDeliverRequest → AgentShared → Outcome
  handle_fetch t request agent =
      checked agent
        (λ p. then_act (fetch_with request.request p.1) (
          open_with_grant t p.0 (is_standard request.tier)
            (open_agent_secret y.crypto y.hex request.name request.tier request.envelope) agent))
        (check_fetch request)

  unfoldable pub check_inject : AgentInjectDeliverRequest → Result AgentError (GrantKey × Bytes)
  check_inject request = do
    scope ← map_err bad_request (grant_key_from_id request.grant_id)
    map_err unusable (reject_agent_named_one_shot_fields request.secrets)
    format ← map_err inject_refused (validate_inject_request request.secrets request.format)
    ok (scope, format)

  unfoldable pub render_with :
      List NamedSecretInput → Bytes → GrantEntry → Option Bytes → Result UseError Bytes
  render_with secrets format grant master = do
    opened ← open_named_secrets_for_agent y.crypto y.hex secrets grant master
    map_err (λ _. render_failed) (render_inject_file y.json_string opened format)

  unfoldable pub write_inject : Bytes → AgentShared → Bytes → Outcome
  write_inject path agent rendered = (
    agent,
    wrote path rendered ∷ [],
    if y.write_file path rendered then ok injected else err write_failed,
  )

  unfoldable pub handle_inject : Turn → AgentInjectDeliverRequest → AgentShared → Outcome
  handle_inject t request agent =
      checked agent
        (λ p. then_act (write_inject request.path) (
          open_with_grant t p.0 (any (λ (s : NamedSecretInput). is_standard s.tier) request.secrets)
            (render_with request.secrets p.1) agent))
        (check_inject request)

  abbrev pub signed_with : AgentShared → Result AgentError SignatureResult → Outcome
  signed_with agent (ok result) = (agent, signed result ∷ [], ok (signature result))
  signed_with agent (err e) = (agent, [], err e)

  unfoldable pub sign_digest_with_key :
      SignatureScheme → Bytes → Bytes → Result AgentError SignatureResult
  sign_digest_with_key scheme digest key_plaintext = do
    private_key ← map_err bad_request (zeroizing_vec_to_key32 key_plaintext)
    result ← map_err sign_failed (sign_digest k scheme private_key digest y.aux_rand)
    ok (record result { signature = y.hex.encode result.signature })

  unfoldable pub check_sign :
      AgentSignRequest → Result AgentError (GrantKey × Bytes × SignatureScheme)
  check_sign request = do
    scope ← map_err bad_request (grant_key_from_id request.grant_id)
    digest ← map_err bad_request (decode_hex_32 y.hpke y.hex request.digest)
    scheme ← map_err sign_failed (from_str request.scheme)
    ok (scope, digest, scheme)

  unfoldable pub handle_sign : Turn → AgentSignRequest → AgentShared → Outcome
  handle_sign t request agent =
      checked agent
        (λ p.
          then_act
            (λ after key_plaintext. signed_with after (sign_digest_with_key p.2 p.1 key_plaintext))
            (open_with_grant t p.0 false
              (λ grant master.
                open_signing_key_with_grant y.crypto y.hex request.name request.key_envelope
                  request.scheme p.1 grant)
              agent))
        (check_sign request)

  unfoldable pub handle_grant_request : Clock → AgentGrantRequest → AgentShared → Outcome
  handle_grant_request clock request agent =
      let (state, r) =
        handle_grant y.hpke y.hex y.private_key clock.now clock.purged_at clock.later agent.state
          request in
      (
        record agent { state = state },
        [],
        map_err bad_request r >>= λ counts. ok (granted counts.0 counts.1),
      )

  unfoldable pub handle_release : Clock → Bytes → AgentShared → Outcome
  handle_release clock grant_id agent =
      checked agent
        (λ scope.
          let (state, was) = release clock.now clock.purged_at clock.later agent.state scope in
          (record agent { state = state }, [], ok (released was)))
        (map_err bad_request (grant_key_from_id grant_id))

  unfoldable pub handle_agent_request : Turn → Clock → AgentRequest → AgentShared → Outcome
  handle_agent_request t clock pubkey agent =
      (agent, [], ok (key_pair y.public_key_b64 y.fingerprint_hex))
  handle_agent_request t clock (grant_request request) agent =
      handle_grant_request clock request agent
  handle_agent_request t clock (release_request grant_id) agent =
      handle_release clock grant_id agent
  handle_agent_request t clock (revoke_request grant_id) agent = handle_release clock grant_id agent
  handle_agent_request t clock (deliver_run request) agent = handle_run t request agent
  handle_agent_request t clock (deliver_fetch request) agent = handle_fetch t request agent
  handle_agent_request t clock (deliver_inject request) agent = handle_inject t request agent
  handle_agent_request t clock (sign_request request) agent = handle_sign t request agent

  unfoldable pub handle_agent_frame_inner : Turn → Clock → Bytes → AgentShared → Outcome
  handle_agent_frame_inner t clock frame agent = elim (y.read_frame frame) [
    | none ↦ (agent, [], err frame_invalid)
    | some request ↦ handle_agent_request t clock request agent
  ]
