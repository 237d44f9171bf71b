-- ===== src/Cli/Options.antt =====
-- The options of `avault`, `seal`, `deliver run` and `key import`, from
-- crates/avault-cli/src/main.rs. Where the source takes an option and its value in one round, the
-- model takes two: the option that waits for its value is an argument of the loop.
pub mod Laws
use avault.Prelude.{
  Bool, true, false, ◌&&◌, Option, none, some, List, [], ◌∷◌, if◌then◌else◌, is_some,
}
use avault.Prelude.Bytes.{Bytes, codes, eq_bytes}
use avault.Prelude.Result.{Result, ok, err, ◌>>=◌, ◌>>◌, or_fail}
use avault.Inject.{is_utf8}
use avault.Cli.{
  CliError, store_not_utf8, not_utf8, unknown_option, repeated, value_required, name_required,
  env_required, StoreSelection, auto, to_str, parse_store,
}

-- The environment variable `AVAULT_STORE`, if it is set.
unfoldable pub initial_store : Option Bytes → Result CliError StoreSelection
initial_store none = ok auto
initial_store (some value) = elim (to_str value) [
  | none ↦ err store_not_utf8
  | some text ↦ parse_store text
]

-- The selected store, and the arguments from the first on that is no `--store`.
unfoldable pub global_loop :
    List Bytes → Bool → StoreSelection → Result CliError (StoreSelection × List Bytes)
global_loop [] true store = err value_required
global_loop [] false store = ok (store, [])
global_loop (arg ∷ args) true store = elim (to_str arg) [
  | none ↦ err value_required
  | some value ↦ parse_store value >>= global_loop args false
]
global_loop (arg ∷ args) false store = elim (is_utf8 arg && eq_bytes arg (codes "--store")) [
  | true ↦ global_loop args true store
  | false ↦ ok (store, arg ∷ args)
]

unfoldable pub parse_global_options :
    Option Bytes → List Bytes → Result CliError (StoreSelection × List Bytes)
unfolding initial_store
parse_global_options variable args = initial_store variable >>= global_loop args false

pub record SealOptions : Type 0 where
  pub name : Bytes
  pub blind_box : Bool

unfoldable pub seal_loop : List Bytes → Bool → Option Bytes → Bool → Result CliError SealOptions
seal_loop [] true name blind_box = err value_required
seal_loop [] false name blind_box = do
  name ← or_fail name name_required
  ok (record { name = name; blind_box = blind_box })
seal_loop (arg ∷ args) true name blind_box = elim (to_str arg) [
  | none ↦ err value_required
  | some value ↦ seal_loop args false (some value) blind_box
]
seal_loop (arg ∷ args) false name blind_box = elim (to_str arg) [
  | none ↦ err not_utf8
  | some flag ↦ elim (eq_bytes flag (codes "--name")) [
    | true ↦ elim (is_some name) [
      | true ↦ err repeated
      | false ↦ seal_loop args true name blind_box
    ]
    | false ↦ elim (eq_bytes flag (codes "--blind-box")) [
      | true ↦ elim blind_box [ true ↦ err repeated | false ↦ seal_loop args false name true ]
      | false ↦ err unknown_option
    ]
  ]
]

unfoldable pub parse_seal_options : List Bytes → Result CliError SealOptions
parse_seal_options args = seal_loop args false none false

pub record DeliverRunOptions : Type 0 where
  pub name : Bytes
  pub env_name : Bytes
  pub envelope_file : Option Bytes

pub data RunFlag : Type 0 where
  name_flag env_flag envelope_file_flag : RunFlag

pub record RunTargets : Type 0 where
  pub name : Option Bytes
  pub env_name : Option Bytes
  pub envelope_file : Option Bytes

unfoldable pub run_flag : Bytes → Option RunFlag
run_flag flag =
    if eq_bytes flag (codes "--name")
    then some name_flag
    else if eq_bytes flag (codes "--env")
    then some env_flag
    else if eq_bytes flag (codes "--envelope-file")
    then some envelope_file_flag
    else none

abbrev pub target : RunFlag → RunTargets → Option Bytes
target name_flag t = t.name
target env_flag t = t.env_name
target envelope_file_flag t = t.envelope_file

abbrev pub set_target : RunFlag → Bytes → RunTargets → RunTargets
set_target name_flag value t = record t { name = some value }
set_target env_flag value t = record t { env_name = some value }
set_target envelope_file_flag value t = record t { envelope_file = some value }

unfoldable pub run_loop :
    List Bytes → Option RunFlag → RunTargets → Result CliError DeliverRunOptions
run_loop [] (some flag) t = err value_required
run_loop [] none t = do
  name ← or_fail t.name name_required
  env_name ← or_fail t.env_name env_required
  ok (record { name = name; env_name = env_name; envelope_file = t.envelope_file })
run_loop (arg ∷ args) (some flag) t = elim (to_str arg) [
  | none ↦ err value_required
  | some value ↦ run_loop args none (set_target flag value t)
]
run_loop (arg ∷ args) none t = elim (to_str arg) [
  | none ↦ err not_utf8
  | some text ↦ elim (run_flag text) [
    | none ↦ err unknown_option
    | some flag ↦ elim (is_some (target flag t)) [
      | true ↦ err repeated
      | false ↦ run_loop args (some flag) t
    ]
  ]
]

unfoldable pub parse_deliver_run_options : List Bytes → Result CliError DeliverRunOptions
parse_deliver_run_options args =
    run_loop args none (record { name = none; env_name = none; envelope_file = none })

unfoldable pub flag_loop : List Bytes → Bytes → Bool → Result CliError Bool
flag_loop [] flag seen = ok seen
flag_loop (arg ∷ args) flag seen = elim (eq_bytes arg flag) [
  | true ↦ flag_loop args flag true
  | false ↦ err unknown_option
]

abbrev pub parse_flag : List Bytes → Bytes → Result CliError Bool
parse_flag args flag = flag_loop args flag false
