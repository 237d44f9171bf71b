-- ===== src/Wire.antt =====
-- Byte streams between processes: the agent's socket, with short reads, short writes and time-outs,
-- from crates/avault-cli/src/main.rs: `read_exact_agent` and `write_all_agent`. What the stream does
-- at each call is a list of events; the clock is read where a time-out occurs.
pub mod Frame
pub mod Delivery
pub mod Helper
pub mod Secrets
pub mod Input
use avault.Prelude.{
  ℕ, zero, suc, ◌-◌, Bool, true, false, List, [], ◌∷◌, ◌++◌, ltb, ◌==◌, if◌then◌else◌, length, take,
  drop,
}
use avault.Prelude.Bytes.{Bytes}
use avault.Prelude.Result.{Result, ok, err}

pub data IoError : Type 0 where
  unexpected_eof write_zero timed_out broken_pipe : IoError

-- Bytes have come in; nothing has come in or can be taken, with the deadline reached or not; the
-- call fails.
pub data ReadEvent : Type 0 where
  arrive : Bytes → ReadEvent
  blocked : Bool → ReadEvent
  broken : ReadEvent

-- The bytes that stay for the next call.
abbrev pub put_back : Bytes → List ReadEvent → List ReadEvent
put_back [] events = events
put_back (b ∷ bytes) events = arrive (b ∷ bytes) ∷ events

-- The buffer that is to fill has `need` more bytes; `got` stands in it. No event is the end of the
-- stream, where a call reads 0 bytes.
unfoldable pub read_exact_agent : List ReadEvent → ℕ → Bytes → Result IoError Bytes × List ReadEvent
read_exact_agent [] need got = if need == 0 then (ok got, []) else (err unexpected_eof, [])
read_exact_agent (arrive bytes ∷ events) need got =
    let rest = read_exact_agent events (need - length bytes) (got ++ bytes) in
    if need == 0
    then (ok got, arrive bytes ∷ events)
    else if length bytes == 0
    then (err unexpected_eof, events)
    else if ltb need (length bytes)
    then (ok (got ++ take need bytes), put_back (drop need bytes) events)
    else rest
read_exact_agent (blocked late ∷ events) need got =
    let rest = read_exact_agent events need got in
    if need == 0
    then (ok got, blocked late ∷ events)
    else if late
    then (err timed_out, events)
    else rest
read_exact_agent (broken ∷ events) need got =
    if need == 0 then (ok got, broken ∷ events) else (err broken_pipe, events)

-- A call takes so many bytes at most.
pub data WriteEvent : Type 0 where
  accept : ℕ → WriteEvent
  stalled : Bool → WriteEvent
  refuse : WriteEvent

-- The result, what was sent, and the events that are left; after the last event each call fails.
unfoldable pub write_all_agent :
    List WriteEvent → Bytes → Result IoError (Unit {0}) × Bytes × List WriteEvent
write_all_agent events [] = (ok tt, [], events)
write_all_agent [] (b ∷ bytes) = (err broken_pipe, [], [])
write_all_agent (accept zero ∷ events) (b ∷ bytes) = (err write_zero, [], events)
write_all_agent (accept (suc n) ∷ events) (b ∷ bytes) =
    let (r, sent, left) = write_all_agent events (drop n bytes) in
    (r, b ∷ (take n bytes ++ sent), left)
write_all_agent (stalled true ∷ events) (b ∷ bytes) = (err timed_out, [], events)
write_all_agent (stalled false ∷ events) (b ∷ bytes) = write_all_agent events (b ∷ bytes)
write_all_agent (refuse ∷ events) (b ∷ bytes) = (err broken_pipe, [], events)
