-- ===== src/Wire/Input/Whole.antt =====
-- `read_zeroizing_to_cap` reads the whole input, however it is cut, or refuses it.
use avault.Prelude.{
  ℕ, zero, suc, ◌+◌, ◌-◌, ◌≤◌, ◌<◌, min, ◌≡◌, refl, sym, ap, ◌∙◌, ◌⊎◌, inl, inr, true, false,
  Option, some, List, [], ◌∷◌, ◌++◌, append_assoc, append-nil, arith, ltb, leb, if◌then◌else◌,
  Bool-cases, length, take, drop, length-append, take-append-drop, length-take,
}
use avault.Prelude.Bytes.{Bytes}
use avault.Prelude.Result.{Result, ok, err}
use avault.Wire.{ReadEvent, arrive, blocked, broken, put_back}
use avault.Wire.Delivery.{payload, payload-put_back}
use avault.Wire.Input.{
  InputError, input_too_large, stdin_read_chunk_bytes, read_call, Reading, next_chunk, last_byte,
  read_rounds, read_zeroizing_to_cap,
}

-- No call fails, and the input does not end early.
abbrev pub IsQuiet : List ReadEvent → Type 0
IsQuiet [] = Unit
IsQuiet (arrive bytes ∷ events) = (0 < length bytes) × IsQuiet events
IsQuiet (blocked late ∷ events) = ⊥
IsQuiet (broken ∷ events) = ⊥

put_back-IsQuiet :
    (bytes : Bytes) (events : List ReadEvent) → IsQuiet events → IsQuiet (put_back bytes events)
put_back-IsQuiet [] events h = h
put_back-IsQuiet (b ∷ bytes) events h = (omega arith, h)

-- One call gives the next bytes; it gives none at the end only.
abbrev pub Gives : List ReadEvent → ℕ → Type 0
Gives events size =
    (chunk : Bytes) × (left : List ReadEvent) × (read_call events size ≡ (ok chunk, left))
    × (payload events ≡ chunk ++ payload left)
    × IsQuiet left
    × (length chunk ≤ size)
    × ((payload events ≡ []) ⊎ (0 < length chunk))

pub read_call-IsQuiet :
    (events : List ReadEvent) (size : ℕ) → IsQuiet events → 0 < size → Gives events size
unfolding read_call payload
read_call-IsQuiet [] size h s = ([], [], refl, refl, tt, omega arith, inl refl)
read_call-IsQuiet (broken ∷ events) size h s = absurd h
read_call-IsQuiet (blocked late ∷ events) size h s = absurd h
read_call-IsQuiet (arrive bytes ∷ events) size (some_byte, h) s =
    let chunk = take size bytes in
    let stays = drop size bytes in
    (
      chunk,
      put_back stays events,
      refl,
      ap (λ t. t ++ payload events) (sym (take-append-drop size bytes))
          ∙ append_assoc chunk stays (payload events)
          ∙ ap (◌++◌ chunk) (sym (payload-put_back stays events)),
      put_back-IsQuiet stays events h,
      omega (arith, length-take size bytes),
      inr (omega (arith, length-take size bytes)),
    )

abbrev pub capped : ℕ → Bytes → Result InputError Bytes
capped max_len text = if leb (length text) max_len then ok text else err input_too_large

abbrev Ends : Option Reading → ℕ → Bytes → Type 0
Ends r max_len text = (left : List ReadEvent) × (r ≡ some (capped max_len text, left))

-- The rounds after this one end.
abbrev Later : ℕ → (List ReadEvent → Bytes → Option Reading) → ℕ → Type 0
Later max_len round fuel =
    (events : List ReadEvent) (out : Bytes)
    → IsQuiet events
    → length out ≤ max_len
    → max_len < fuel + length out
    → Ends (round events out) max_len (out ++ payload events)

module _ (max_len : ℕ) (events left : List ReadEvent) (out : Bytes) where
  next_chunk-Ends :
      (round : List ReadEvent → Bytes → Option Reading) (fuel : ℕ) (chunk : Bytes)
      → Later max_len round fuel
      → payload events ≡ chunk ++ payload left
      → IsQuiet left
      → (payload events ≡ []) ⊎ (0 < length chunk)
      → length out + length chunk ≤ max_len
      → max_len < suc fuel + length out
      → Ends (next_chunk round out (ok chunk, left)) max_len (out ++ payload events)
  next_chunk-Ends round fuel [] later p q (inr s) l f = absurd (omega arith)
  next_chunk-Ends round fuel [] later p q (inl z) l f =
      let fits : leb (length out) max_len ≡ true = ground arith in
      (left, rw (z, append-nil, fits) refl)
  next_chunk-Ends round fuel (b ∷ chunk) later p q s l f =
      let size = length-append {0} out (b ∷ chunk) in
      let (last, e) = later left (out ++ b ∷ chunk) q (omega (arith, size)) (omega (arith, size)) in
      (
        last,
        e
            ∙ ap (λ t. some (capped max_len t, last))
                (append_assoc out (b ∷ chunk) (payload left) ∙ ap (◌++◌ out) (sym p)),
      )

  last_byte-Ends :
      (chunk : Bytes)
      → payload events ≡ chunk ++ payload left
      → (payload events ≡ []) ⊎ (0 < length chunk)
      → length out ≡ max_len
      → Ends (last_byte out (ok chunk, left)) max_len (out ++ payload events)
  last_byte-Ends [] p (inr s) l = absurd (omega arith)
  last_byte-Ends [] p (inl z) l =
      let fits : leb (length out) max_len ≡ true = ground arith in
      (left, rw (z, append-nil, fits) refl)
  last_byte-Ends (b ∷ chunk) p s l =
      let over : leb (length (out ++ payload events)) max_len ≡ false =
        ground (arith, length-append {0} out (payload events), ap length p) in
      (left, rw over refl)

read_rounds-Ends : (max_len fuel : ℕ) → Later max_len (read_rounds fuel max_len) fuel
unfolding read_rounds
read_rounds-Ends max_len zero events out h l f = absurd (omega arith)
read_rounds-Ends max_len (suc fuel) events out h l f =
    elim (Bool-cases (ltb (length out) max_len)) [
      | inl e ↦
          let size = min (max_len - length out) stdin_read_chunk_bytes in
          let room : (0 < size) × (length out + size ≤ max_len) = ground arith in
          let (chunk, left, r, p, q, s, z) = read_call-IsQuiet events size h room.0 in
          rw (e, r)
            (next_chunk-Ends max_len events left out (read_rounds fuel max_len) fuel chunk
              (read_rounds-Ends max_len fuel) p q z (omega arith) f)
      | inr e ↦
          let (chunk, left, r, p, _, _, z) = read_call-IsQuiet events 1 h (omega arith) in
          rw (e, r) (last_byte-Ends max_len events left out chunk p z (ground arith))
    ]

-- Reading to a limit ends on any input whose calls do not fail, however it is cut, with the whole
-- input where it is within the limit and with an error where it is longer.
pub read_zeroizing_to_cap-capped :
    (events : List ReadEvent) (max_len : ℕ)
    → IsQuiet events
    → (left : List ReadEvent) × (read_zeroizing_to_cap events max_len
        ≡ some (capped max_len (payload events), left))
read_zeroizing_to_cap-capped events max_len h =
    read_rounds-Ends max_len (suc max_len) events [] h (omega arith) (omega arith)
