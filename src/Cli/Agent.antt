-- ===== src/Cli/Agent.antt =====
-- The options of `agent`: `parse_agent_options`, and the default path of the socket. The option that
-- waits for its value is an argument of the loop.
pub mod Laws
use avault.Prelude.{
  ℕ, Bool, true, false, not, ◌&&◌, Option, none, some, List, [], ◌∷◌, ◌==◌, if◌then◌else◌, is_some,
}
use avault.Prelude.Bytes.{Bytes, codes, eq_bytes}
use avault.Prelude.Result.{Result, ok, err, ◌>>=◌, ◌>>◌, bail_if, or_fail}
use avault.Cli.{
  CliError, not_utf8, unknown_option, repeated, value_required, timeout_not_integer,
  timeout_not_positive, unlock_requires_passphrase, home_not_set, StoreSelection, file_passphrase,
  to_str, parse_store,
}
use avault.Store.Keychain.Cooldown.{parse_u64}

abbrev pub default_agent_idle_timeout_secs : ℕ
default_agent_idle_timeout_secs = 300

-- The time in seconds.
pub record AgentOptions : Type 0 where
  pub socket_path : Bytes
  pub idle_timeout : ℕ
  pub store : StoreSelection
  pub unlock : Bool

pub data AgentFlag : Type 0 where
  socket_flag timeout_flag store_flag unlock_flag : AgentFlag

-- The options so far.
pub record AgentTargets : Type 0 where
  pub socket_path : Option Bytes
  pub idle_timeout_secs : ℕ
  pub store : StoreSelection
  pub unlock : Bool

unfoldable pub agent_flag : Bytes → Option AgentFlag
agent_flag flag =
    if eq_bytes flag (codes "--socket")
    then some socket_flag
    else if eq_bytes flag (codes "--idle-timeout-secs")
    then some timeout_flag
    else if eq_bytes flag (codes "--store")
    then some store_flag
    else if eq_bytes flag (codes "--unlock")
    then some unlock_flag
    else none

-- The round of an option before its value is read.
abbrev pub take_flag : AgentFlag → AgentTargets → Result CliError AgentTargets
take_flag socket_flag t = bail_if (is_some t.socket_path) repeated >> ok t
take_flag timeout_flag t = ok t
take_flag store_flag t = ok t
take_flag unlock_flag t = bail_if t.unlock repeated >> ok (record t { unlock = true })

abbrev pub waits : AgentFlag → Option AgentFlag
waits unlock_flag = none
waits flag = some flag

unfoldable pub take_value : AgentFlag → Bytes → AgentTargets → Result CliError AgentTargets
take_value socket_flag value t = ok (record t { socket_path = some value })
take_value timeout_flag value t = do
  secs ← or_fail (parse_u64 value) timeout_not_integer
  bail_if (secs == 0) timeout_not_positive
  ok (record t { idle_timeout_secs = secs })
take_value store_flag value t = do store ← parse_store value; ok (record t { store = store })
take_value unlock_flag value t = ok t

unfoldable pub is_file_passphrase : StoreSelection → Bool
is_file_passphrase file_passphrase = true
is_file_passphrase _ = false

-- `Path::join` with a relative path.
unfoldable pub join : Bytes → Bytes → Bytes
join [] part = part
join (b ∷ []) part = if b == b'/' then b ∷ part else b ∷ b'/' ∷ part
join (b ∷ c ∷ base) part = b ∷ join (c ∷ base) part

-- `home` is the value of `HOME`, if it is set.
unfoldable pub default_agent_socket_path : Option Bytes → Result CliError Bytes
default_agent_socket_path home = do
  home ← or_fail home home_not_set
  ok (join (join (join home (codes ".avibe")) (codes "run")) (codes "avault.sock"))

abbrev pub unwrap_or : Option Bytes → Bytes → Bytes
unwrap_or none d = d
unwrap_or (some x) d = x

-- The argument of `unwrap_or` is evaluated in either case.
unfoldable pub finish_options : Option Bytes → AgentTargets → Result CliError AgentOptions
finish_options home t = do
  bail_if (t.unlock && not (is_file_passphrase t.store)) unlock_requires_passphrase
  default_path ← default_agent_socket_path home
  ok (record {
    socket_path = unwrap_or t.socket_path default_path;
    idle_timeout = t.idle_timeout_secs;
    store = t.store;
    unlock = t.unlock;
  })

unfoldable pub agent_loop :
    List Bytes → Option AgentFlag → AgentTargets → Result CliError AgentTargets
agent_loop [] (some flag) t = err value_required
agent_loop [] none t = ok t
agent_loop (arg ∷ args) (some flag) t = elim (to_str arg) [
  | none ↦ err value_required
  | some value ↦ take_value flag value t >>= agent_loop args none
]
agent_loop (arg ∷ args) none t = elim (to_str arg) [
  | none ↦ err not_utf8
  | some text ↦ elim (agent_flag text) [
    | none ↦ err unknown_option
    | some flag ↦ take_flag flag t >>= agent_loop args (waits flag)
  ]
]

unfoldable pub parse_agent_options :
    Option Bytes → StoreSelection → List Bytes → Result CliError AgentOptions
parse_agent_options home store args = do
  t ← agent_loop args none (record {
    socket_path = none;
    idle_timeout_secs = default_agent_idle_timeout_secs;
    store = store;
    unlock = false;
  })
  finish_options home t
