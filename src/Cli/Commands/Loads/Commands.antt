-- ===== src/Cli/Commands/Loads/Commands.antt =====
-- `deliver_cmd` and `sign_cmd` do no more to the store than load keys.
use avault.Prelude.{Bool, true, false, Option, none, some, List, [], ◌∷◌, if◌then◌else◌}
use avault.Prelude.Bytes.{Bytes, codes}
use avault.Prelude.Result.{map_err, bail_if, or_fail, guard}
use avault.Core.Signing.{Curve, from_str}
use avault.Core.Envelope.{open_sealed}
use avault.Agent.GrantRequest.{decode_hex_32}
use avault.Inject.{validate_inject_request, render_inject_file}
use avault.Fetch.{validate_fetch_input}
use avault.Fetch.Execute.{execute_fetch_request}
use avault.Agent.Use.{OpenedSecret}
use avault.Agent.Dispatch.{System}
use avault.Cli.{StoreSelection, to_str, is_text}
use avault.Cli.Commands.{
  StoreUnlock, secret_required, command_required, not_json, fetch_refused, fetch_failed,
  inject_refused, request_refused, sign_failed, core_failed, write_failed, MasterStore, Command,
}
use avault.Cli.Commands.OneShot.{reject_one_shot_protected_fields, ensure_one_shot_standard_tier}
use avault.Cli.Commands.Vault.{SignInput, sign_cmd}
use avault.Cli.Commands.Deliver.{
  FetchInput, InjectInput, Host, parses, spawnable, run_child_with_opened_env, read_envelope,
  deliver_run_request, deliver_run_envelope, deliver_run_cmd, deliver_fetch_cmd, deliver_inject_cmd,
  deliver_named, deliver_cmd,
}
use avault.Wire.Helper.{is_empty}
use avault.Cli.Commands.Loads.{
  OnlyLoads, done-OnlyLoads, bind-OnlyLoads, check-OnlyLoads, read_json_input-OnlyLoads,
  load-OnlyLoads, read_store_unlock-OnlyLoads, open_one_shot_secret-OnlyLoads,
  open_env_secrets-OnlyLoads, open_named_secrets-OnlyLoads,
}

module _ {S E : Type 0} (y : System) (h : Host) (m : MasterStore S E) where
  run_child-OnlyLoads :
      (command : List Bytes) (opened : List OpenedSecret) (closed : Bool)
      → OnlyLoads m (run_child_with_opened_env y h m command opened closed)
  unfolding run_child_with_opened_env
  run_child-OnlyLoads command opened closed =
      check-OnlyLoads m (spawnable y h m opened) _
        (bind-OnlyLoads m _ _ (done-OnlyLoads m _) (λ status. done-OnlyLoads m _))

  read_envelope-OnlyLoads : (path : Option Bytes) → OnlyLoads m (read_envelope y h m path)
  unfolding read_envelope
  read_envelope-OnlyLoads none = read_json_input-OnlyLoads m
  read_envelope-OnlyLoads (some path) = done-OnlyLoads m _

  deliver_run_request-OnlyLoads :
      (command : List Bytes) (unlock : StoreUnlock)
      → OnlyLoads m (deliver_run_request y h m command unlock)
  deliver_run_request-OnlyLoads command unlock =
      bind-OnlyLoads m _ _ (read_json_input-OnlyLoads m) (λ _.
        bind-OnlyLoads m _ _ (done-OnlyLoads m _) (λ secrets.
          check-OnlyLoads m (bail_if (is_empty secrets) secret_required) _ (
            bind-OnlyLoads m _ _ (open_env_secrets-OnlyLoads m y.crypto unlock secrets)
              (λ opened. run_child-OnlyLoads command opened true))))

  deliver_run_envelope-OnlyLoads :
      (options command : List Bytes) (unlock : StoreUnlock)
      → OnlyLoads m (deliver_run_envelope y h m options command unlock)
  deliver_run_envelope-OnlyLoads options command unlock =
      bind-OnlyLoads m _ _ (done-OnlyLoads m _) (λ run_options.
        bind-OnlyLoads m _ _ (read_envelope-OnlyLoads run_options.envelope_file) (λ _.
          bind-OnlyLoads m _ _ (done-OnlyLoads m _) (λ sealed.
            bind-OnlyLoads m _ _ (open_env_secrets-OnlyLoads m y.crypto unlock _)
              (λ opened. run_child-OnlyLoads command opened _))))

  either-OnlyLoads :
      {A : Type 0} (b : Bool) (x z : Command S E A)
      → OnlyLoads m x
      → OnlyLoads m z
      → OnlyLoads m (if b then x else z)
  either-OnlyLoads true x z h k = h
  either-OnlyLoads false x z h k = k

  deliver_run_cmd-OnlyLoads :
      (args : List Bytes) (config : StoreSelection)
      → OnlyLoads m (deliver_run_cmd y h m args config)
  unfolding deliver_run_cmd
  deliver_run_cmd-OnlyLoads args config =
      bind-OnlyLoads m _ _ (done-OnlyLoads m _) (λ (options, command).
        check-OnlyLoads m (bail_if (is_empty command) command_required) _ (
          bind-OnlyLoads m _ _ (read_store_unlock-OnlyLoads m config) (λ unlock.
            either-OnlyLoads _ _ _ (deliver_run_request-OnlyLoads command unlock)
              (deliver_run_envelope-OnlyLoads options command unlock))))

  deliver_fetch_cmd-OnlyLoads :
      (args : List Bytes) (config : StoreSelection)
      → OnlyLoads m (deliver_fetch_cmd y h m args config)
  unfolding deliver_fetch_cmd
  deliver_fetch_cmd-OnlyLoads (arg ∷ args) config = done-OnlyLoads m _
  deliver_fetch_cmd-OnlyLoads [] config =
      bind-OnlyLoads m _ _ (read_store_unlock-OnlyLoads m config) (λ unlock.
        bind-OnlyLoads m _ _ (read_json_input-OnlyLoads m) (λ input.
          bind-OnlyLoads m _ _ (done-OnlyLoads m (or_fail (h.parse_fetch input) not_json))
            (λ (fetch : FetchInput).
              check-OnlyLoads m (ensure_one_shot_standard_tier fetch.tier) _ (
                bind-OnlyLoads m _ _
                  (done-OnlyLoads m
                    (map_err fetch_refused (validate_fetch_input y.urls fetch.request)))
                  (λ (url, is_loopback).
                    bind-OnlyLoads m _ _
                      (open_one_shot_secret-OnlyLoads m y.crypto unlock fetch.name fetch.envelope
                        fetch.dek_blindbox fetch.approval none)
                      (λ secret.
                        bind-OnlyLoads m _ _
                          (done-OnlyLoads m (
                            map_err fetch_failed (
                              execute_fetch_request (parses y h m) y.client fetch.request secret
                                is_loopback)))
                          (λ output. done-OnlyLoads m _)))))))

  deliver_inject_cmd-OnlyLoads :
      (args : List Bytes) (config : StoreSelection)
      → OnlyLoads m (deliver_inject_cmd y h m args config)
  unfolding deliver_inject_cmd
  deliver_inject_cmd-OnlyLoads (arg ∷ args) config = done-OnlyLoads m _
  deliver_inject_cmd-OnlyLoads [] config =
      bind-OnlyLoads m _ _ (read_store_unlock-OnlyLoads m config) (λ unlock.
        bind-OnlyLoads m _ _ (read_json_input-OnlyLoads m) (λ input.
          bind-OnlyLoads m _ _ (done-OnlyLoads m (or_fail (h.parse_inject input) not_json))
            (λ (inject : InjectInput).
              bind-OnlyLoads m _ _
                (done-OnlyLoads m
                  (map_err inject_refused (validate_inject_request inject.secrets inject.format)))
                (λ format.
                  bind-OnlyLoads m _ _
                    (open_named_secrets-OnlyLoads m y.crypto unlock inject.secrets)
                    (λ opened.
                      bind-OnlyLoads m _ _
                        (done-OnlyLoads m
                          (map_err inject_refused (render_inject_file y.json_string opened format)))
                        (λ rendered.
                          check-OnlyLoads m (guard (y.write_file inject.path rendered) write_failed)
                            _ (done-OnlyLoads m _)))))))

  deliver_named-OnlyLoads :
      (subcmd : Option Bytes) (args : List Bytes) (config : StoreSelection)
      → OnlyLoads m (deliver_named y h m subcmd args config)
  deliver_named-OnlyLoads none args config = done-OnlyLoads m _
  deliver_named-OnlyLoads (some subcmd) args config =
      either-OnlyLoads (is_text subcmd (codes "run")) _ _ (deliver_run_cmd-OnlyLoads args config) (
        either-OnlyLoads (is_text subcmd (codes "fetch")) _ _
          (deliver_fetch_cmd-OnlyLoads args config)
          (either-OnlyLoads (is_text subcmd (codes "inject")) _ _
            (deliver_inject_cmd-OnlyLoads args config) (done-OnlyLoads m _)))

  -- Whatever its arguments, input and outcome, a one-shot delivery does no more to the store than
  -- load existing keys from it: it creates and imports none.
  pub deliver_cmd-OnlyLoads :
      (args : List Bytes) (config : StoreSelection) → OnlyLoads m (deliver_cmd y h m args config)
  unfolding deliver_cmd
  deliver_cmd-OnlyLoads [] config = done-OnlyLoads m _
  deliver_cmd-OnlyLoads (arg ∷ args) config = deliver_named-OnlyLoads (to_str arg) args config

  sign_cmd-OnlyLoads :
      (k : Curve) (parse : Bytes → Option SignInput) (args : List Bytes) (config : StoreSelection)
      → OnlyLoads m (sign_cmd y k m parse args config)
  unfolding sign_cmd
  sign_cmd-OnlyLoads k parse (arg ∷ args) config = done-OnlyLoads m _
  sign_cmd-OnlyLoads k parse [] config =
      bind-OnlyLoads m _ _ (read_store_unlock-OnlyLoads m config) (λ unlock.
        bind-OnlyLoads m _ _ (read_json_input-OnlyLoads m) (λ input.
          bind-OnlyLoads m _ _ (done-OnlyLoads m (or_fail (parse input) not_json))
            (λ (request : SignInput).
              bind-OnlyLoads m _ _
                (done-OnlyLoads m
                  (map_err request_refused (decode_hex_32 y.hpke y.hex request.digest)))
                (λ digest.
                  bind-OnlyLoads m _ _
                    (done-OnlyLoads m (map_err sign_failed (from_str request.scheme)))
                    (λ scheme.
                      check-OnlyLoads m
                        (reject_one_shot_protected_fields request.dek_blindbox request.approval) _
                        (bind-OnlyLoads m _ _ (load-OnlyLoads m unlock) (λ master.
                          bind-OnlyLoads m _ _
                            (done-OnlyLoads m (
                              map_err core_failed
                                (open_sealed y.crypto master request.name request.key_envelope)))
                            (λ key. done-OnlyLoads m _))))))))
