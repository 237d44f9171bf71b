-- ===== src/Tests/CliRuns.antt =====
-- Options at concrete command lines.
use avault.Prelude.{◌<◌, ◌≡◌, refl, true, false, some, [], ◌∷◌, arith, is_some}
use avault.Prelude.Bytes.{codes, eq_bytes}
use avault.Prelude.Result.{ok}
use avault.Inject.{utf8_from, is_utf8}
use avault.Cli.{auto, keychain, file_passphrase}
use avault.Cli.Options.{DeliverRunOptions}
use avault.Cli.Agent.{
  AgentOptions, agent_flag, take_value, join, default_agent_socket_path, finish_options, agent_loop,
  parse_agent_options,
}
use avault.Store.Keychain.Cooldown.{u64_end, parse_u64, parse_digits}
use avault.Cli.Agent.Laws.{agent_args, parse_agent_options-agent_args, parse_agent_options-accepted}

abbrev key_file : DeliverRunOptions
key_file = record {
  name = codes "key";
  env_name = codes "KEY";
  envelope_file = some (codes "--name");
}

name_text : is_utf8 (codes "--name") ≡ true
unfolding utf8_from
name_text = refl

key_text : is_utf8 (codes "key") ≡ true
unfolding utf8_from
key_text = refl

env_text : is_utf8 (codes "KEY") ≡ true
unfolding utf8_from
env_text = refl

parse_agent_options-agent_args_example :
    parse_agent_options
      (some (codes "/root"))
      auto
      (agent_args (codes "--name") 60 file_passphrase true)
    ≡ ok (record {
      socket_path = codes "--name";
      idle_timeout = 60;
      store = file_passphrase;
      unlock = true;
    })
parse_agent_options-agent_args_example =
    parse_agent_options-agent_args (codes "/root") (codes "--name") 60 auto file_passphrase true
      name_text (omega arith) (omega arith) (λ _. refl)

abbrev by_default : AgentOptions
by_default = record {
  socket_path = codes "/root/.avibe/run/avault.sock";
  idle_timeout = 7;
  store = keychain;
  unlock = false;
}

parses :
    parse_agent_options
      (some (codes "/root/"))
      keychain
      (codes "--idle-timeout-secs" ∷ codes "+7" ∷ [])
    ≡ ok by_default
unfolding parse_agent_options agent_loop agent_flag eq_bytes utf8_from take_value parse_u64
    parse_digits finish_options default_agent_socket_path join
parses = refl

parse_agent_options-accepted_example :
    (0 < 7)
    × (7 < u64_end)
    × (by_default.unlock ≡ true → by_default.store ≡ file_passphrase)
    × (is_some (some (codes "/root/")) ≡ true)
parse_agent_options-accepted_example =
    parse_agent_options-accepted (some (codes "/root/")) keychain
      (codes "--idle-timeout-secs" ∷ codes "+7" ∷ []) by_default parses
