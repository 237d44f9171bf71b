-- ===== src/Tests/WireRuns.antt =====
-- Frames and input on concrete streams.
use avault.Prelude.{◌≡◌, refl, false, some, List, [], ◌∷◌, ◌++◌, arith}
use avault.Prelude.Bytes.{Bytes, codes}
use avault.Prelude.Result.{ok}
use avault.Wire.{ReadEvent, arrive, blocked}
use avault.Wire.Delivery.{payload}
use avault.Wire.Input.{read_zeroizing_to_cap, read_passphrase_line}
use avault.Wire.{write_all_agent, WriteEvent, accept, stalled}
use avault.Wire.Frame.{read_agent_frame, write_agent_frame}
use avault.Wire.Delivery.{IsSteady, read_agent_frame-write_agent_frame}
use avault.Agent.Use.{OpenedSecret, validate_shell_name}
use avault.Wire.Helper.{
  write_agent_run_helper_frame, write_secrets, write_secret, write_agent_run_helper_bytes,
  validate_env_value, read_agent_run_helper_frame,
}
use avault.Wire.Secrets.{read_agent_run_helper_frame-write}
use avault.Inject.{utf8_from}
use avault.Wire.Input.Whole.{capped, read_zeroizing_to_cap-capped}
use avault.Wire.Input.Line.{line_of, after_line, ReadsLine, read_passphrase_line-ReadsLine}

abbrev takes : List WriteEvent
takes = accept 3 ∷ stalled false ∷ accept 9 ∷ accept 1 ∷ accept 9 ∷ []

abbrev sent : Bytes
sent = 0 ∷ 0 ∷ 0 ∷ 2 ∷ codes "ok"

abbrev arrivals : List ReadEvent
arrivals =
    arrive (0 ∷ 0 ∷ [])
    ∷ blocked false
    ∷ arrive (0 ∷ 2 ∷ b'o' ∷ [])
    ∷ arrive (b'k' ∷ b'!' ∷ [])
    ∷ []

writes : write_agent_frame takes (codes "ok") ≡ (ok tt, sent, [])
unfolding write_agent_frame write_all_agent
writes = refl

read_agent_frame-write_agent_frame_example :
    (later : List ReadEvent) × (read_agent_frame arrivals ≡ (ok (some (codes "ok")), later))
    × (payload later ≡ codes "!")
    × IsSteady later
read_agent_frame-write_agent_frame_example =
    read_agent_frame-write_agent_frame takes [] (codes "ok") sent (codes "!") arrivals writes
      (omega arith, (refl, (omega arith, (omega arith, tt)))) arrivals_payload (omega arith)
      (omega arith)
  where
    arrivals_payload : payload arrivals ≡ sent ++ codes "!"
    arrivals_payload = unfold payload in refl

abbrev secrets : List OpenedSecret
secrets =
    record { name = codes "A_1"; plaintext = codes "x=y" }
    ∷ record { name = codes "B"; plaintext = [] }
    ∷ []

abbrev frame : Bytes
frame =
    codes "avault-agent-run-env-v1"
    ++ (0 ∷ 0 ∷ 0 ∷ 0 ∷ 2 ∷ 0 ∷ 0 ∷ 0 ∷ 3 ∷ codes "A_1"
        ++ (0 ∷ 0 ∷ 0 ∷ 3 ∷ codes "x=y" ++ (0 ∷ 0 ∷ 0 ∷ 1 ∷ b'B' ∷ 0 ∷ 0 ∷ 0 ∷ 0 ∷ [])))

frame_written : write_agent_run_helper_frame secrets ≡ ok frame
unfolding write_agent_run_helper_frame write_secrets write_secret write_agent_run_helper_bytes
    validate_env_value validate_shell_name utf8_from
frame_written = refl

read_agent_run_helper_frame-write_example :
    read_agent_run_helper_frame (frame ++ codes "z") ≡ ok (secrets, codes "z")
read_agent_run_helper_frame-write_example =
    read_agent_run_helper_frame-write secrets frame (codes "z") frame_written (omega arith)
      (omega arith)

abbrev typed : List ReadEvent
typed = arrive (codes "pa") ∷ arrive (b's' ∷ b's' ∷ 13 ∷ 10 ∷ b'{' ∷ []) ∷ arrive (b'}' ∷ []) ∷ []

read_zeroizing_to_cap-capped_example :
    (left : List ReadEvent) × (read_zeroizing_to_cap typed 8
      ≡ some (capped 8 (payload typed), left))
read_zeroizing_to_cap-capped_example = read_zeroizing_to_cap-capped typed 8 (omega arith)

read_passphrase_line-ReadsLine_example :
    ReadsLine (read_passphrase_line typed) (line_of (payload typed)) (after_line (payload typed))
read_passphrase_line-ReadsLine_example = read_passphrase_line-ReadsLine typed (omega arith)
