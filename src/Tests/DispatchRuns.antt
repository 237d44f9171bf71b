-- ===== src/Tests/DispatchRuns.antt =====
-- A frame that runs a command with a secret of a grant.
use avault.Prelude.{◌≡◌, refl, true, none, some, [], ◌∷◌, ◌++◌}
use avault.Prelude.Bytes.{Bytes, codes, eq_bytes}
use avault.Prelude.Maps.{lookup}
use avault.Tests.ToyCrypto.{toy_crypto}
use avault.Tests.BlindRuns.{toy_hpke}
use avault.Core.Signing.{Curve}
use avault.Tests.UseRuns.{turn, agent, env_input, toy_hex}
use avault.Core.Crypto.{decode_nonce}
use avault.Core.Envelope.{slice_to_key}
use avault.Core.Protected.{protected_record_aad, open_with_dek, open_protected_value_with_dek}
use avault.Agent.Grants
use avault.Agent.Grants.{eq_dek_key, purge, get_live_grant, publish_grant}
use avault.Agent.GrantRequest.{grant_key_from_id}
use avault.Agent.Use.{
  validate_shell_name, reject_agent_one_shot_secret_fields, open_secret_with_grant,
  open_agent_secret, open_with_grant, master_for,
}
use avault.Agent.Use.Secrets.{open_env_secrets_for_agent}
use avault.Inject.{utf8_from}
use avault.Wire.Helper.{
  write_secret, write_secrets, validate_env_value, write_agent_run_helper_bytes,
  write_agent_run_helper_frame,
}
use avault.Agent.Dispatch.{
  AgentRunDeliverRequest, AgentRequest, deliver_run, ran, Clock, reject_agent_env_one_shot_fields,
  check_run, System,
}
use avault.Agent.Dispatch.Handle.{
  run_child, handle_run, handle_agent_request, handle_agent_frame_inner,
}
use avault.Agent.Dispatch.Live.{Covered, handle_agent_frame_inner-Covered}

abbrev pub request : AgentRunDeliverRequest
request = record { grant_id = codes "run-1"; command = codes "env" ∷ []; secrets = env_input ∷ [] }

abbrev pub toy_system : System
toy_system = record {
  crypto = toy_crypto;
  hex = toy_hex;
  hpke = toy_hpke;
  private_key = codes "sk";
  public_key_b64 = codes "pk";
  fingerprint_hex = codes "fp";
  urls = record {
    parse = λ url. none;
    ipv4_to_string = λ a b c d. [];
    ipv6_to_string = λ n. [];
    is_ipv6 = λ host. true;
  };
  client = λ method url headers body proxy. none;
  json_string = λ bytes. bytes;
  read_frame = λ frame. some (deliver_run request);
  run = λ command frame. some (record { signal = none; code = some 0 });
  write_file = λ path bytes. true;
  aux_rand = [];
}

-- A curve with no key.
abbrev toy_curve : Curve
toy_curve = record {
  Scalar = Unit {0};
  Point = Unit {0};
  from_repr = λ bytes. none;
  is_zero = λ s. true;
  neg = λ s. s;
  add = λ a b. a;
  to_bytes = λ s. [];
  times_generator = λ s. s;
  add_points = λ a b. a;
  y_is_odd = λ p. true;
  x = λ p. [];
  is_identity = λ p. true;
  ecdsa_key = λ key. true;
  ecdsa_sign_recoverable = λ key digest. none;
  ecdsa_sign_der = λ key digest. none;
  schnorr_key = λ key. true;
  schnorr_sign = λ key digest aux. none;
  verifying_key = λ key. true;
  is_signature = λ signature. true;
  verify = λ key digest signature. true;
  sha256 = λ bytes. bytes;
}

abbrev clock : Clock
clock = record { now = 20; purged_at = 21; later = 22 }

abbrev helper_frame : Bytes
helper_frame =
    codes "avault-agent-run-env-v1"
    ++ 0 ∷ 0 ∷ 0 ∷ 0 ∷ 1 ∷ 0 ∷ 0 ∷ 0 ∷ 5 ∷ codes "TOKEN"
    ++ 0 ∷ 0 ∷ 0 ∷ 6 ∷ codes "s3cr3t"

runs_command :
    (handle_agent_frame_inner toy_system toy_curve turn clock [] agent).1
    ≡ ran (codes "env" ∷ []) helper_frame ∷ []
unfolding handle_agent_frame_inner handle_agent_request handle_run check_run
    reject_agent_env_one_shot_fields run_child write_agent_run_helper_frame
    write_agent_run_helper_bytes validate_env_value write_secret write_secrets utf8_from
    grant_key_from_id open_with_grant master_for get_live_grant publish_grant purge Grants.new
    open_env_secrets_for_agent open_agent_secret open_secret_with_grant open_with_dek
    open_protected_value_with_dek validate_shell_name reject_agent_one_shot_secret_fields lookup
    eq_dek_key eq_bytes decode_nonce slice_to_key protected_record_aad
runs_command = refl

handle_agent_frame_inner-Covered_example :
    (asked : AgentRequest) × (some (deliver_run request) ≡ some asked) × Covered turn agent asked
handle_agent_frame_inner-Covered_example =
    handle_agent_frame_inner-Covered toy_system toy_curve turn clock [] agent
      (rw runs_command (λ silent. cc))
