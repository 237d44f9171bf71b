-- ===== src/Tests/UseRuns.antt =====
-- The agent's use of a grant, and the files that it writes, on concrete requests.
use avault.Prelude.{◌≡◌, refl, false, Option, none, some, List, [], ◌∷◌, arith}
use avault.Prelude.Bytes.{Bytes, codes, eq_bytes}
use avault.Prelude.Result.{Result, ok}
use avault.Tests.ToyCrypto.{frame, print_meta, toy_crypto}
use avault.Core.Crypto.{wrap_scheme, Sealed, static, WrapMeta, decode_nonce}
use avault.Core.Envelope.{slice_to_key}
use avault.Core.Protected.{protected_record_aad, open_with_dek, open_protected_value_with_dek}
use avault.Prelude.Maps.{lookup}
use avault.Agent.Grants
use avault.Agent.Grants.{
  GrantKey, GrantEntry, deliver, dek_key_eq, eq_dek_key, AgentState, purge, record_activity,
  get_live_grant, publish_grant, release, missing_or_expired,
}
use avault.Agent.MasterCache
use avault.Agent.MasterCache.{unlocked}
use avault.Agent.GrantRequest.{Hex}
use avault.Agent.Use.{
  UseError, protected, EnvSecretInput, OpenedSecret, AgentShared, Turn, validate_shell_name,
  reject_agent_one_shot_secret_fields, open_secret_with_grant, open_agent_secret, open_with_grant,
  master_for,
}
use avault.Agent.Use.Checks.{OpenedUnder, open_with_grant-OpenedUnder}
use avault.Agent.Use.Secrets.{open_env_secrets_for_agent, Opened, open_env_secrets_for_agent-Opened}
use avault.Inject.{render_dotenv, secret_utf8, utf8_from, write_shell_quoted}
use avault.Inject.Dotenv.{read_dotenv, read_dotenv-render_dotenv}

abbrev scope : GrantKey
scope = record { grant_id = codes "run-1" }

abbrev name : Bytes
name = codes "API_KEY"

abbrev dek : Bytes
dek = codes "0123456789abcdef0123456789abcdef"

abbrev protected_meta : WrapMeta
protected_meta = record {
  v = 1;
  scheme = wrap_scheme;
  wrapped_dek = [];
  dek_nonce = [];
  record_meta = some static;
}

abbrev envelope : Sealed
envelope = record {
  ciphertext = frame (protected_record_aad toy_crypto name protected_meta) (codes "s3cr3t");
  nonce = codes "nonce-012345";
  wrap_meta = print_meta protected_meta;
}

abbrev grant : GrantEntry
grant = record {
  expires_at = 400;
  deks = (record { purpose = deliver; name = name; scheme = none; digest_hex = none }, dek) ∷ [];
}

abbrev pub toy_hex : Hex
toy_hex = record { decode = some; encode = λ raw. raw }

abbrev granted : AgentState
granted = (publish_grant 10 10 (Grants.new 0 300) scope grant []).0

abbrev pub agent : AgentShared
agent = record { state = granted; master = MasterCache.new (unlocked dek) 300 }

abbrev pub turn : Turn
turn = record {
  first = 20;
  second = 21;
  purged_at = 22;
  active_at = 22;
  master_first = 20;
  master_now = 20;
  master_later = 20;
  master_loaded = ok dek;
  master_waiting = λ c. c;
  master_during = λ c. c;
  before_master = λ a. a;
  after_master = λ a. a;
  after_open = λ a. a;
}

abbrev pub env_input : EnvSecretInput
env_input = record {
  name = name;
  env = codes "TOKEN";
  tier = protected;
  envelope = envelope;
  dek_blindbox = none;
  approval = none;
}

abbrev opener : GrantEntry → Option Bytes → Result UseError (List OpenedSecret)
opener = open_env_secrets_for_agent toy_crypto toy_hex (env_input ∷ [])

abbrev opened : List OpenedSecret
opened = record { name = codes "TOKEN"; plaintext = codes "s3cr3t" } ∷ []

opens_env : opener grant none ≡ ok opened
unfolding open_env_secrets_for_agent open_agent_secret open_secret_with_grant open_with_dek
    open_protected_value_with_dek validate_shell_name reject_agent_one_shot_secret_fields lookup
    eq_dek_key eq_bytes decode_nonce slice_to_key protected_record_aad
opens_env = refl

open_env_secrets_for_agent-Opened_example :
    Opened toy_crypto toy_hex [] (env_input ∷ []) grant none opened
open_env_secrets_for_agent-Opened_example =
    open_env_secrets_for_agent-Opened toy_crypto toy_hex (env_input ∷ []) grant none opens_env

uses_grant : (open_with_grant turn scope false opener agent).1 ≡ ok opened
unfolding open_with_grant master_for get_live_grant publish_grant purge Grants.new
    open_env_secrets_for_agent open_agent_secret open_secret_with_grant open_with_dek
    open_protected_value_with_dek validate_shell_name reject_agent_one_shot_secret_fields lookup
    eq_dek_key eq_bytes decode_nonce slice_to_key protected_record_aad
uses_grant = refl

open_with_grant-OpenedUnder_example :
    OpenedUnder turn scope false opener agent
      (open_with_grant turn scope false opener agent).0
      opened
open_with_grant-OpenedUnder_example =
    open_with_grant-OpenedUnder turn scope false opener agent uses_grant

abbrev released : AgentShared
released = record agent { state = record_activity 20 20 (release 15 15 15 granted scope).0 }

abbrev quoted : List OpenedSecret
quoted = record { name = codes "TOKEN"; plaintext = codes "it's" } ∷ []

renders : render_dotenv quoted ≡ ok (codes "TOKEN='it'\\''s'\n")
unfolding render_dotenv secret_utf8 utf8_from write_shell_quoted
renders = refl

read_dotenv-render_dotenv_example : read_dotenv 1 (codes "TOKEN='it'\\''s'\n") ≡ some quoted
unfolding validate_shell_name
read_dotenv-render_dotenv_example =
    read_dotenv-render_dotenv 1 quoted (omega arith) (refl, tt) renders
