-- ===== src/Wire/Input.antt =====
-- Standard input, from crates/avault-cli/src/main.rs: `read_zeroizing_to_cap`,
-- `read_passphrase_line` and `trim_trailing_newlines`.
pub mod Whole
pub mod Line
use avault.Prelude.{
  ℕ, zero, suc, ◌-◌, min, Bool, true, false, ◌||◌, Option, none, some, List, [], ◌∷◌, ◌++◌, ltb,
  leb, ◌==◌, if◌then◌else◌, length, take, drop,
}
use avault.Prelude.Bytes.{Bytes}
use avault.Prelude.Result.{Result, ok, err}
use avault.Wire.{IoError, broken_pipe, timed_out, ReadEvent, arrive, blocked, broken, put_back}

pub data InputError : Type 0 where
  read_failed : IoError → InputError
  input_too_large passphrase_too_large passphrase_empty : InputError

abbrev pub stdin_read_chunk_bytes : ℕ
stdin_read_chunk_bytes = 8192

abbrev pub max_stdin_passphrase_bytes : ℕ
max_stdin_passphrase_bytes = 65536

abbrev pub max_stdin_envelope_bytes : ℕ
max_stdin_envelope_bytes = 2097152

-- `reader.read` into a buffer of that size.
unfoldable pub read_call : List ReadEvent → ℕ → Result IoError Bytes × List ReadEvent
read_call [] size = (ok [], [])
read_call (arrive bytes ∷ events) size = (ok (take size bytes), put_back (drop size bytes) events)
read_call (blocked late ∷ events) size = (err timed_out, events)
read_call (broken ∷ events) size = (err broken_pipe, events)

abbrev pub Reading : Type 0
Reading = Result InputError Bytes × List ReadEvent

-- After a call: its error, the end of the input, or the next round with the bytes added.
abbrev pub next_chunk :
    (List ReadEvent → Bytes → Option Reading)
    → Bytes
    → Result IoError Bytes × List ReadEvent
    → Option Reading
next_chunk round out (err e, events) = some (err (read_failed e), events)
next_chunk round out (ok [], events) = some (ok out, events)
next_chunk round out (ok (b ∷ bytes), events) = round events (out ++ b ∷ bytes)

abbrev pub last_byte : Bytes → Result IoError Bytes × List ReadEvent → Option Reading
last_byte out (err e, events) = some (err (read_failed e), events)
last_byte out (ok [], events) = some (ok out, events)
last_byte out (ok (b ∷ bytes), events) = some (err input_too_large, events)

-- `none` where the fuel runs out.
unfoldable pub read_rounds : ℕ → ℕ → List ReadEvent → Bytes → Option Reading
read_rounds zero max_len events out = none
read_rounds (suc fuel) max_len events out =
    if ltb (length out) max_len
    then next_chunk (read_rounds fuel max_len) out
        (read_call events (min (max_len - length out) stdin_read_chunk_bytes))
    else last_byte out (read_call events 1)

-- Each round but the last adds a byte.
abbrev pub read_zeroizing_to_cap : List ReadEvent → ℕ → Option Reading
read_zeroizing_to_cap events max_len = read_rounds (suc max_len) max_len events []

abbrev pub strip : (ℕ → Bool) → ℕ → Bytes → Bytes
strip p b [] = if p b then [] else b ∷ []
strip p b (c ∷ rest) = b ∷ c ∷ rest

-- The last bytes that pass the test are taken away.
unfoldable pub drop_last : (ℕ → Bool) → Bytes → Bytes
drop_last p [] = []
drop_last p (b ∷ bytes) = strip p b (drop_last p bytes)

abbrev pub trim_trailing_newlines : Bytes → Bytes
trim_trailing_newlines bytes = drop_last (λ b. b == 10 || b == 13) bytes

-- `if matches!(out.last(), Some(b'\r')) { out.pop(); }`
unfoldable pub pop_return : Bytes → Bytes
pop_return [] = []
pop_return (b ∷ []) = if b == 13 then [] else b ∷ []
pop_return (b ∷ c ∷ rest) = b ∷ pop_return (c ∷ rest)

abbrev pub checked_line : Bytes → Result InputError Bytes
checked_line [] = err passphrase_empty
checked_line (b ∷ bytes) = ok (b ∷ bytes)

abbrev pub line_read : Bytes → List ReadEvent → Option Reading
line_read out events = some (checked_line (pop_return out), events)

abbrev pub next_byte :
    (List ReadEvent → Bytes → Option Reading)
    → Bytes
    → Result IoError Bytes × List ReadEvent
    → Option Reading
next_byte round out (err e, events) = some (err (read_failed e), events)
next_byte round out (ok [], events) = line_read out events
next_byte round out (ok (b ∷ bytes), events) = elim (b == 10) [
  | true ↦ line_read out events
  | false ↦ round events (out ++ b ∷ [])
]

unfoldable pub line_rounds : ℕ → List ReadEvent → Bytes → Option Reading
line_rounds zero events out = none
line_rounds (suc fuel) events out =
    if leb max_stdin_passphrase_bytes (length out)
    then some (err passphrase_too_large, events)
    else next_byte (line_rounds fuel) out (read_call events 1)

abbrev pub read_passphrase_line : List ReadEvent → Option Reading
read_passphrase_line events = line_rounds (suc max_stdin_passphrase_bytes) events []
