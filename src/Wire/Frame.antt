-- ===== src/Wire/Frame.antt =====
-- The frames of the agent's socket: `read_agent_frame` and `write_agent_frame`.
use avault.Prelude.{
  ℕ, ◌+◌, ◌*◌, ◌^◌, Option, none, some, List, [], ◌∷◌, ◌++◌, ◌||◌, ltb, ◌==◌, if◌then◌else◌, length,
}
use avault.Prelude.Bytes.{Bytes}
use avault.Prelude.Result.{Result, ok, err}
use avault.BlindBox.{be_bytes}
use avault.Wire.{IoError, unexpected_eof, ReadEvent, WriteEvent, read_exact_agent, write_all_agent}

pub data FrameError : Type 0 where
  length_failed body_failed : IoError → FrameError
  size_invalid too_large : FrameError

abbrev pub max_agent_frame_bytes : ℕ
max_agent_frame_bytes = 2097152

-- `u32::from_be_bytes`.
abbrev pub from_be_bytes : Bytes → ℕ
from_be_bytes (a ∷ b ∷ c ∷ d ∷ []) = ((a * 256 + b) * 256 + c) * 256 + d
from_be_bytes _ = 0

abbrev pub read_body :
    Result IoError Bytes × List ReadEvent → Result FrameError (Option Bytes) × List ReadEvent
read_body (ok frame, events) = (ok (some frame), events)
read_body (err e, events) = (err (body_failed e), events)

abbrev pub after_length :
    Result IoError Bytes × List ReadEvent → Result FrameError (Option Bytes) × List ReadEvent
after_length (ok len_buf, events) =
    let len = from_be_bytes len_buf in
    if len == 0 || ltb max_agent_frame_bytes len
    then (err size_invalid, events)
    else read_body (read_exact_agent events len [])
after_length (err unexpected_eof, events) = (ok none, events)
after_length (err e, events) = (err (length_failed e), events)

unfoldable pub read_agent_frame : List ReadEvent → Result FrameError (Option Bytes) × List ReadEvent
read_agent_frame events = after_length (read_exact_agent events 4 [])

abbrev pub body_written :
    Bytes
    → Result IoError (Unit {0}) × Bytes × List WriteEvent
    → Result FrameError (Unit {0}) × Bytes × List WriteEvent
body_written sent (ok u, more, events) = (ok u, sent ++ more, events)
body_written sent (err e, more, events) = (err (body_failed e), sent ++ more, events)

abbrev pub write_body :
    Bytes
    → Result IoError (Unit {0}) × Bytes × List WriteEvent
    → Result FrameError (Unit {0}) × Bytes × List WriteEvent
write_body bytes (ok u, sent, events) = body_written sent (write_all_agent events bytes)
write_body bytes (err e, sent, events) = (err (length_failed e), sent, events)

unfoldable pub write_agent_frame :
    List WriteEvent → Bytes → Result FrameError (Unit {0}) × Bytes × List WriteEvent
write_agent_frame events bytes =
    if ltb (length bytes) (2 ^ 32)
    then write_body bytes (write_all_agent events (be_bytes 4 (length bytes)))
    else (err too_large, [], events)
