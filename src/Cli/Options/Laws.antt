-- ===== src/Cli/Options/Laws.antt =====
-- Options that are written as arguments are read back.
use avault.Prelude.{◌≡◌, refl, ◌∙◌, Bool, true, false, Option, none, some, List, [], ◌∷◌}
use avault.Prelude.Bytes.{Bytes, codes, eq_bytes}
use avault.Prelude.Result.{ok}
use avault.Inject.{utf8_from, is_utf8}
use avault.Cli.{to_str}
use avault.Cli.Options.{
  SealOptions, seal_loop, parse_seal_options, DeliverRunOptions, RunFlag, name_flag, env_flag,
  envelope_file_flag, RunTargets, run_flag, target, set_target, run_loop, parse_deliver_run_options,
}

pub to_str-text : (text : Bytes) → is_utf8 text ≡ true → to_str text ≡ some text
to_str-text text h = rw h refl

-- The value of an option of `seal`.
seal_name :
    (value : Bytes) (args : List Bytes) (blind_box : Bool)
    → is_utf8 value ≡ true
    → seal_loop (codes "--name" ∷ value ∷ args) false none blind_box
      ≡ seal_loop args false (some value) blind_box
unfolding seal_loop utf8_from eq_bytes
seal_name value args blind_box h = rw (to_str-text value h, seal_loop) refl

abbrev pub flag_if : Bool → Bytes → List Bytes → List Bytes
flag_if true flag args = flag ∷ args
flag_if false flag args = args

abbrev pub seal_args : SealOptions → List Bytes
seal_args o = codes "--name" ∷ o.name ∷ flag_if o.blind_box (codes "--blind-box") []

pub parse_seal_options-seal_args :
    (o : SealOptions) → is_utf8 o.name ≡ true → parse_seal_options (seal_args o) ≡ ok o
unfolding parse_seal_options seal_loop eq_bytes utf8_from
parse_seal_options-seal_args o h =
    seal_name o.name (flag_if o.blind_box (codes "--blind-box") []) false h
    ∙ elim o.blind_box
        as (λ b.
          seal_loop (flag_if b (codes "--blind-box") []) false (some o.name) false
          ≡ ok (record { name = o.name; blind_box = b })) [ true ↦ refl | false ↦ refl ]

-- The name of an option of `deliver run`.
abbrev pub run_flag_name : RunFlag → Bytes
run_flag_name name_flag = codes "--name"
run_flag_name env_flag = codes "--env"
run_flag_name envelope_file_flag = codes "--envelope-file"

run_setting :
    (flag : RunFlag) (value : Bytes) (args : List Bytes) (t : RunTargets)
    → is_utf8 value ≡ true
    → target flag t ≡ none
    → run_loop (run_flag_name flag ∷ value ∷ args) none t
      ≡ run_loop args none (set_target flag value t)
unfolding run_loop run_flag eq_bytes utf8_from
run_setting name_flag value args t h f = rw (f, to_str-text value h, run_loop) refl
run_setting env_flag value args t h f = rw (f, to_str-text value h, run_loop) refl
run_setting envelope_file_flag value args t h f = rw (f, to_str-text value h, run_loop) refl

abbrev pub file_args : Option Bytes → List Bytes
file_args none = []
file_args (some path) = codes "--envelope-file" ∷ path ∷ []

abbrev pub IsText : Option Bytes → Type 0
IsText none = Unit
IsText (some value) = is_utf8 value ≡ true

abbrev pub run_args : DeliverRunOptions → List Bytes
run_args o = codes "--env" ∷ o.env_name ∷ codes "--name" ∷ o.name ∷ file_args o.envelope_file

file_last :
    (name env_name : Bytes) (path : Option Bytes)
    → IsText path
    → run_loop
        (file_args path)
        none
        (record { name = some name; env_name = some env_name; envelope_file = none })
      ≡ ok (record { name = name; env_name = env_name; envelope_file = path })
unfolding run_loop
file_last name env_name none h = refl
file_last name env_name (some path) h =
    run_setting envelope_file_flag path []
      (record { name = some name; env_name = some env_name; envelope_file = none }) h refl

-- The options of a delivered command, written as arguments with the environment variable first and
-- the file, if there is one, last, are read back, also where a value is spelled like an option, if
-- they are UTF-8.
pub parse_deliver_run_options-run_args :
    (o : DeliverRunOptions)
    → is_utf8 o.name ≡ true
    → is_utf8 o.env_name ≡ true
    → IsText o.envelope_file
    → parse_deliver_run_options (run_args o) ≡ ok o
unfolding parse_deliver_run_options
parse_deliver_run_options-run_args o hn he hf =
    let last = file_args o.envelope_file in
    run_setting env_flag o.env_name (codes "--name" ∷ o.name ∷ last)
      (record { name = none; env_name = none; envelope_file = none }) he refl
    ∙ run_setting name_flag o.name last
        (record { name = none; env_name = some o.env_name; envelope_file = none }) hn refl
    ∙ file_last o.name o.env_name o.envelope_file hf
