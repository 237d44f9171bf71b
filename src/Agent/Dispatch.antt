-- ===== src/Agent/Dispatch.antt =====
-- The frames of the agent, from crates/avault-cli/src/main.rs: `handle_agent_frame_inner` with every
-- branch, over `AgentShared`. Children, the network, files and signatures that leave the agent are
-- listed as effects, in order; what they return are functions. The frame is read by serde_json.
pub mod Handle
pub mod Live
use avault.Prelude.{
  ℕ, ◌+◌, Bool, true, false, Option, none, some, List, [], ◌∷◌, ltb, if◌then◌else◌,
}
use avault.Prelude.Bytes.{Bytes}
use avault.Prelude.Result.{Result, ok, err, ◌>>=◌, ◌>>◌, bail_if, map_err}
use avault.Core.Crypto.{Crypto, Sealed}
use avault.Core.Signing.{SignError, SignatureResult}
use avault.BlindBox.{Hpke}
use avault.Agent.Grants.{GrantKey}
use avault.Agent.GrantRequest.{RequestError, AgentGrantRequest, Hex, grant_key_from_id}
use avault.Agent.Use.{
  UseError, SecretTier, standard, protected, EnvSecretInput, NamedSecretInput, AgentShared,
  reject_agent_one_shot_secret_fields,
}
use avault.Inject.{InjectError}
use avault.Fetch.{FetchError, FetchRequest, UrlCrate}
use avault.Fetch.Execute
use avault.Fetch.Execute.{ExecuteError, Prepared, HttpClient, FetchOutput}
use avault.Wire.Helper.{HelperError, is_empty}

pub data AgentError : Type 0 where
  frame_invalid command_required secret_required run_failed write_failed : AgentError
  bad_request : RequestError → AgentError
  unusable : UseError → AgentError
  fetch_refused : FetchError → AgentError
  fetch_failed : ExecuteError → AgentError
  inject_refused : InjectError → AgentError
  helper_failed : HelperError → AgentError
  sign_failed : SignError → AgentError

pub record AgentRunDeliverRequest : Type 0 where
  pub grant_id : Bytes
  pub command : List Bytes
  pub secrets : List EnvSecretInput

-- `auth` is written out.
pub record AgentFetchDeliverRequest : Type 0 where
  pub grant_id : Bytes
  pub name : Bytes
  pub tier : SecretTier
  pub envelope : Sealed
  pub request : FetchRequest

pub record AgentInjectDeliverRequest : Type 0 where
  pub grant_id : Bytes
  pub path : Bytes
  pub format : Bytes
  pub secrets : List NamedSecretInput

pub record AgentSignRequest : Type 0 where
  pub grant_id : Bytes
  pub name : Bytes
  pub key_envelope : Sealed
  pub digest : Bytes
  pub scheme : Bytes

pub data AgentRequest : Type 0 where
  pubkey : AgentRequest
  grant_request : AgentGrantRequest → AgentRequest
  release_request revoke_request : Bytes → AgentRequest
  deliver_run : AgentRunDeliverRequest → AgentRequest
  deliver_fetch : AgentFetchDeliverRequest → AgentRequest
  deliver_inject : AgentInjectDeliverRequest → AgentRequest
  sign_request : AgentSignRequest → AgentRequest

pub data Reply : Type 0 where
  key_pair : Bytes → Bytes → Reply
  granted : ℕ → ℕ → Reply
  released : Bool → Reply
  exited : ℕ → Reply
  fetched : FetchOutput → Reply
  injected : Reply
  signature : SignatureResult → Reply

-- What leaves the agent: a command with the frame for its helper, a request with its credential, a
-- file, and a signature.
pub data Effect : Type 0 where
  ran : List Bytes → Bytes → Effect
  sent : Prepared → Effect
  wrote : Bytes → Bytes → Effect
  signed : SignatureResult → Effect

abbrev pub Outcome : Type 0
Outcome = AgentShared × List Effect × Result AgentError Reply

-- The clock where a grant is published or released.
pub record Clock : Type 0 where
  pub now : ℕ
  pub purged_at : ℕ
  pub later : ℕ

abbrev pub is_standard : SecretTier → Bool
is_standard standard = true
is_standard protected = false

unfoldable pub reject_agent_env_one_shot_fields : List EnvSecretInput → Result UseError (Unit {0})
reject_agent_env_one_shot_fields [] = ok tt
reject_agent_env_one_shot_fields (secret ∷ secrets) = do
  reject_agent_one_shot_secret_fields secret.dek_blindbox secret.approval
  reject_agent_env_one_shot_fields secrets

unfoldable pub reject_agent_named_one_shot_fields :
    List NamedSecretInput → Result UseError (Unit {0})
reject_agent_named_one_shot_fields [] = ok tt
reject_agent_named_one_shot_fields (secret ∷ secrets) = do
  reject_agent_one_shot_secret_fields secret.dek_blindbox secret.approval
  reject_agent_named_one_shot_fields secrets

unfoldable pub check_run : AgentRunDeliverRequest → Result AgentError GrantKey
check_run request = do
  bail_if (is_empty request.command) command_required
  bail_if (is_empty request.secrets) secret_required
  map_err unusable (reject_agent_env_one_shot_fields request.secrets)
  map_err bad_request (grant_key_from_id request.grant_id)

-- The exit status of a child: a signal, or a code. An exit code is the low byte.
pub record ExitStatus : Type 0 where
  pub signal : Option ℕ
  pub code : Option ℕ

abbrev pub as_u8 : ℕ → ℕ
as_u8 n = if ltb n 256 then n else 1

abbrev pub status_to_exit_code : ExitStatus → ℕ
status_to_exit_code status = elim status.signal [
  | some signal ↦ as_u8 (128 + signal)
  | none ↦ elim status.code [ some code ↦ as_u8 code | none ↦ 1 ]
]

-- After the secrets are opened or not: no effect, or what `act` does with them.
abbrev pub then_act {ℓ} :
    {T : Type ℓ} → (AgentShared → T → Outcome) → AgentShared × Result UseError T → Outcome
then_act act (agent, ok opened) = act agent opened
then_act act (agent, err e) = (agent, [], err (unusable e))

-- A branch that is refused before it uses the agent.
abbrev pub checked {ℓ} : {A : Type ℓ} → AgentShared → (A → Outcome) → Result AgentError A → Outcome
checked agent go (ok a) = go a
checked agent go (err e) = (agent, [], err e)

-- What other crates and the system do. `run` is how the child ends, if it could be run.
pub record System : Type 0 where
  pub crypto : Crypto
  pub hex : Hex
  pub hpke : Hpke
  pub private_key : Bytes
  pub public_key_b64 : Bytes
  pub fingerprint_hex : Bytes
  pub urls : UrlCrate
  pub client : HttpClient
  pub json_string : Bytes → Bytes
  pub read_frame : Bytes → Option AgentRequest
  pub run : List Bytes → Bytes → Option ExitStatus
  pub write_file : Bytes → Bytes → Bool
  pub aux_rand : Bytes
