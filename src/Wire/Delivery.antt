-- ===== src/Wire/Delivery.antt =====
-- What is sent in a frame arrives, however the stream cuts it.
use avault.Prelude.{
  ℕ, zero, suc, ◌+◌, ◌-◌, ◌^◌, ◌≤◌, ◌<◌, ◌≡◌, refl, sym, ap, ◌∙◌, inl, inr, true, false, some, List,
  [], ◌∷◌, ◌++◌, append_assoc, append-nil, arith, ltb, ◌==◌, ltb→lt, Bool-cases, length, take, drop,
  all, length-append, take-append-drop, drop-append, take-append,
}
use avault.Prelude.Bytes.{Bytes}
use avault.Prelude.Result.{Result, ok, err}
use avault.Prelude.{take-append-within, drop-append-within, take-append-past, drop-append-past}
use avault.BlindBox.{be_bytes}
use avault.Wire.{
  IoError, ReadEvent, arrive, blocked, broken, put_back, read_exact_agent, WriteEvent, accept,
  stalled, refuse, write_all_agent,
}
use avault.Wire.Frame.{
  max_agent_frame_bytes, from_be_bytes, read_agent_frame, body_written, write_body,
  write_agent_frame,
}

-- The bytes that a stream has still to give.
unfoldable pub payload : List ReadEvent → Bytes
payload [] = []
payload (arrive bytes ∷ events) = bytes ++ payload events
payload (blocked late ∷ events) = payload events
payload (broken ∷ events) = payload events

-- No call fails, no deadline passes, and the stream does not end early.
abbrev pub IsSteady : List ReadEvent → Type 0
IsSteady [] = Unit
IsSteady (arrive bytes ∷ events) = (0 < length bytes) × IsSteady events
IsSteady (blocked late ∷ events) = (late ≡ false) × IsSteady events
IsSteady (broken ∷ events) = ⊥

pub payload-put_back :
    (bytes : Bytes) (events : List ReadEvent)
    → payload (put_back bytes events) ≡ bytes ++ payload events
unfolding payload
payload-put_back [] events = refl
payload-put_back (b ∷ bytes) events = refl

put_back-IsSteady :
    (bytes : Bytes) (events : List ReadEvent) → IsSteady events → IsSteady (put_back bytes events)
put_back-IsSteady [] events h = h
put_back-IsSteady (b ∷ bytes) events h = (omega arith, h)

abbrev Reads : List ReadEvent → ℕ → Bytes → Type 0
Reads events need got =
    (left : List ReadEvent) × (read_exact_agent events need got
      ≡ (ok (got ++ take need (payload events)), left))
    × (payload left ≡ drop need (payload events))
    × IsSteady left

take-nil : (n : ℕ) → take {A = ℕ} n [] ≡ []
take-nil zero = refl
take-nil (suc n) = refl

nothing_needed : (events : List ReadEvent) (got : Bytes) → IsSteady events → Reads events 0 got
unfolding read_exact_agent
nothing_needed [] got h = ([], rw append-nil refl, refl, h)
nothing_needed (arrive bytes ∷ events) got h = (arrive bytes ∷ events, rw append-nil refl, refl, h)
nothing_needed (blocked late ∷ events) got h = (blocked late ∷ events, rw append-nil refl, refl, h)
nothing_needed (broken ∷ events) got h = absurd h

pub read_exact_agent-IsSteady :
    (events : List ReadEvent) (need : ℕ) (got : Bytes)
    → IsSteady events
    → need ≤ length (payload events)
    → Reads events need got
unfolding read_exact_agent payload
read_exact_agent-IsSteady events zero got h f = nothing_needed events got h
read_exact_agent-IsSteady [] (suc need) got h f = absurd (omega arith)
read_exact_agent-IsSteady (broken ∷ events) (suc need) got h f = absurd h
read_exact_agent-IsSteady (blocked late ∷ events) (suc need) got (e, h) f =
    let (left, r, p, s) = read_exact_agent-IsSteady events (suc need) got h f in
    let needed : (suc need == 0) ≡ false = ground arith in (left, rw (needed, e) r, p, s)
read_exact_agent-IsSteady (arrive bytes ∷ events) (suc need) got (size, h) f =
    let needed : (suc need == 0) ≡ false = ground arith in
    let empty : (length bytes == 0) ≡ false = ground arith in
    elim (Bool-cases (ltb (suc need) (length bytes))) [
      | inl e ↦
          let fits : suc need ≤ length bytes = ground arith in
          (
            put_back (drop (suc need) bytes) events,
            rw (needed, empty, e, take-append-within (suc need) bytes (payload events) fits) refl,
            payload-put_back (drop (suc need) bytes) events
                ∙ sym (drop-append-within (suc need) bytes (payload events) fits),
            put_back-IsSteady (drop (suc need) bytes) events h,
          )
      | inr e ↦
          let more = suc need - length bytes in
          let sum : suc need ≡ length bytes + more = ground arith in
          let enough : more ≤ length (payload events) =
            omega (arith, length-append {0} bytes (payload events)) in
          let (left, r, p, s) = read_exact_agent-IsSteady events more (got ++ bytes) h enough in
          (
            left,
            rw
                (
                  needed,
                  empty,
                  e,
                  r,
                  take-append-past (suc need) more bytes (payload events) sum,
                  append_assoc,
                )
                refl,
            p ∙ sym (drop-append-past (suc need) more bytes (payload events) sum),
            s,
          )
    ]

pub from_be_bytes-be_bytes : (n : ℕ) → n < 2 ^ 32 → from_be_bytes (be_bytes 4 n) ≡ n
from_be_bytes-be_bytes n h = omega arith

-- What is sent is a first part of the bytes, and all of them on success.
pub write_all_agent-sent :
    (events : List WriteEvent) (bytes : Bytes)
    → (rest : Bytes) × (bytes ≡ (write_all_agent events bytes).1 ++ rest)
      × ((write_all_agent events bytes).0 ≡ ok tt → rest ≡ [])
unfolding write_all_agent
write_all_agent-sent events [] = ([], refl, λ _. refl)
write_all_agent-sent [] (b ∷ bytes) = (b ∷ bytes, refl, λ h. cc)
write_all_agent-sent (accept zero ∷ events) (b ∷ bytes) = (b ∷ bytes, refl, λ h. cc)
write_all_agent-sent (accept (suc n) ∷ events) (b ∷ bytes) =
    let (rest, e, all_sent) = write_all_agent-sent events (drop n bytes) in
    (
      rest,
      ap (◌∷◌ b) (
          sym (take-append-drop n bytes)
          ∙ ap (◌++◌ (take n bytes)) e
          ∙ sym (append_assoc (take n bytes) (write_all_agent events (drop n bytes)).1 rest)),
      all_sent,
    )
write_all_agent-sent (stalled true ∷ events) (b ∷ bytes) = (b ∷ bytes, refl, λ h. cc)
write_all_agent-sent (stalled false ∷ events) (b ∷ bytes) = write_all_agent-sent events (b ∷ bytes)
write_all_agent-sent (refuse ∷ events) (b ∷ bytes) = (b ∷ bytes, refl, λ h. cc)

written :
    (events : List WriteEvent) (bytes : Bytes)
    → (write_all_agent events bytes).0 ≡ ok tt
    → (write_all_agent events bytes).1 ≡ bytes
written events bytes h =
    let (rest, e, done) = write_all_agent-sent events bytes in
    sym (e ∙ rw (done h) (append-nil (write_all_agent events bytes).1))

body_written-sent :
    (header bytes sent : Bytes) (w : Result IoError (Unit {0}) × Bytes × List WriteEvent)
    (left : List WriteEvent)
    → (w.0 ≡ ok tt → w.1 ≡ bytes)
    → body_written header w ≡ (ok tt, sent, left)
    → sent ≡ header ++ bytes
body_written-sent header bytes sent (ok tt, more, events) left all h =
    ap (λ r. r.1) (sym h) ∙ ap (◌++◌ header) (all refl)
body_written-sent header bytes sent (err e, more, events) left all h = cc

write_body-sent :
    (header bytes sent : Bytes) (w : Result IoError (Unit {0}) × Bytes × List WriteEvent)
    (left : List WriteEvent)
    → (w.0 ≡ ok tt → w.1 ≡ header)
    → write_body bytes w ≡ (ok tt, sent, left)
    → sent ≡ header ++ bytes
write_body-sent header bytes sent (ok tt, first, events) left all h =
    body_written-sent first bytes sent (write_all_agent events bytes) left (written events bytes) h
    ∙ ap (λ hs. hs ++ bytes) (all refl)
write_body-sent header bytes sent (err e, first, events) left all h = cc

pub write_agent_frame-sent :
    (events left : List WriteEvent) (bytes sent : Bytes)
    → write_agent_frame events bytes ≡ (ok tt, sent, left)
    → (sent ≡ be_bytes 4 (length bytes) ++ bytes) × (length bytes < 2 ^ 32)
unfolding write_agent_frame
write_agent_frame-sent events left bytes sent h = elim (Bool-cases (ltb (length bytes) (2 ^ 32))) [
  | inl e ↦
      let header = be_bytes 4 (length bytes) in
      (
        write_body-sent header bytes sent (write_all_agent events header) left
            (written events header) (rw e at h),
        ltb→lt (length bytes) (2 ^ 32) e,
      )
  | inr e ↦ ground (arith, h, e)
]

-- A frame that comes in whole is read, however its bytes are cut.
pub read_agent_frame-frame :
    (events : List ReadEvent) (bytes rest : Bytes)
    → IsSteady events
    → payload events ≡ be_bytes 4 (length bytes) ++ (bytes ++ rest)
    → 0 < length bytes
    → length bytes ≤ max_agent_frame_bytes
    → (left : List ReadEvent) × (read_agent_frame events ≡ (ok (some bytes), left))
      × (payload left ≡ rest)
      × IsSteady left
unfolding read_agent_frame
read_agent_frame-frame events bytes rest h p low high =
    let size = length bytes in
    let header = be_bytes 4 size in
    let whole : length (payload events) ≡ 4 + (size + length rest) =
      ap length p ∙ omega (arith, length-append {0} bytes rest) in
    let (left, r, q, s) = read_exact_agent-IsSteady events 4 [] h (omega arith) in
    let q' : payload left ≡ bytes ++ rest = q ∙ ap (drop 4) p in
    let head : take 4 (payload events) ≡ header = ap (take 4) p in
    let (left', r', t, s') =
      read_exact_agent-IsSteady left size [] s
        (omega (arith, ap length q', length-append {0} bytes rest)) in
    let body : take size (payload left) ≡ bytes = ap (take size) q' ∙ take-append bytes rest in
    let number = from_be_bytes-be_bytes size (omega arith) in
    let not_empty : (size == 0) ≡ false = ground arith in
    let in_limit : ltb max_agent_frame_bytes size ≡ false = ground arith in
    (
      left',
      rw (r, head, number, not_empty, in_limit, r', body) refl,
      t ∙ ap (drop size) q' ∙ drop-append bytes rest,
      s',
    )

-- A frame of at least one byte and at most the maximal size that one side has written whole is
-- read by the other as it was sent, and what follows it on the stream is left, however calls of
-- either side are cut short or time out before their deadline.
pub read_agent_frame-write_agent_frame :
    (events left : List WriteEvent) (bytes sent rest : Bytes) (arrivals : List ReadEvent)
    → write_agent_frame events bytes ≡ (ok tt, sent, left)
    → IsSteady arrivals
    → payload arrivals ≡ sent ++ rest
    → 0 < length bytes
    → length bytes ≤ max_agent_frame_bytes
    → (later : List ReadEvent) × (read_agent_frame arrivals ≡ (ok (some bytes), later))
      × (payload later ≡ rest)
      × IsSteady later
read_agent_frame-write_agent_frame events left bytes sent rest arrivals w h p low high =
    let (e, _) = write_agent_frame-sent events left bytes sent w in
    read_agent_frame-frame arrivals bytes rest h (p ∙ ap (λ t. t ++ rest) e) low high
