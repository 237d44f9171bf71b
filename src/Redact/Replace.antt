-- ===== src/Redact/Replace.antt =====
-- The two loops of `redact_verbatim_bytes` follow the specification, and its error is the size
-- limit alone.
use native.Mathlib.Nat.{zero-add}
use avault.Prelude.{
  ℕ, zero, suc, ◌+◌, ◌-◌, ◌*◌, ◌≤◌, ◌<◌, ◌≡◌, refl, ap, ◌∙◌, ◌≢◌, ◌⊎◌, inl, inr, none, some, [],
  ◌∷◌, ◌++◌, append_assoc, arith, ltb, ◌==◌, if◌then◌else◌, Option-cases, length, length-append,
}
use avault.Prelude.Bytes.{Bytes}
use avault.Prelude.Result.{Result, ok, err}
use avault.Redact.{
  redact_found, RedactError, body_too_large, fetch_redaction, max_fetch_body_bytes, find_subslice,
  redacted_body_len, count_matches, replace_matches, redact_verbatim_bytes,
}
use avault.Redact.Spec.{
  Redacts, done, hit, find_subslice-none, find_subslice-some, Found, Found-drop, Found-take,
  Found-length,
}

-- Both loops end, with the matches counted and replaced.
record Loops (needle rest : Bytes) (fuel : ℕ) : Type 0 where
  matches : ℕ
  out : Bytes
  redacts : Redacts needle matches rest out
  counts : (m : ℕ) → count_matches fuel rest needle m ≡ some (m + matches)
  replaces : (acc : Bytes) → replace_matches fuel rest needle acc ≡ some (acc ++ out)
  room : matches * length needle ≤ length rest
  lengths : length out + matches * length needle ≡ length rest + matches * 17

Loops-done :
    (fuel n : ℕ) (needle rest : Bytes)
    → find_subslice rest (n ∷ needle) ≡ none
    → Loops (n ∷ needle) rest (suc fuel)
unfolding count_matches replace_matches
Loops-done fuel n needle rest e = record {
  matches = 0;
  out = rest;
  redacts = done (find_subslice-none rest n needle e);
  counts = λ m. rw (e, count_matches) (ap some (omega arith));
  replaces = λ acc. rw (e, replace_matches) refl;
  room = omega arith;
  lengths = omega arith;
}

Loops-hit :
    (fuel n : ℕ) (needle rest : Bytes) (k : ℕ)
    → find_subslice rest (n ∷ needle) ≡ some k
    → (f : Found k (n ∷ needle) rest) → Loops (n ∷ needle) f.rest fuel
    → Loops (n ∷ needle) rest (suc fuel)
unfolding count_matches replace_matches
Loops-hit fuel n needle rest k e f l = record {
  matches = suc l.matches;
  out = f.before ++ (fetch_redaction ++ l.out);
  redacts =
      hit f.before f.rest l.out f.splits (λ i h. f.first i (rw (← f.position) at h)) l.redacts refl;
  counts = λ m.
      rw (e, count_matches)
        (rw (Found-drop k (n ∷ needle) rest f) (l.counts (m + 1) ∙ ap some (omega arith)));
  replaces = λ acc.
      rw (e, replace_matches)
        (rw (Found-drop k (n ∷ needle) rest f, Found-take k (n ∷ needle) rest f)
          (l.replaces (acc ++ (f.before ++ fetch_redaction)) ∙ rw (append_assoc, append_assoc)));
  room = omega (arith, l.room, Found-length k (n ∷ needle) rest f);
  lengths = omega (
    arith,
    f.position,
    Found-length k (n ∷ needle) rest f,
    length-append f.before (fetch_redaction ++ l.out),
    l.lengths,
  );
}

loops : (fuel n : ℕ) (needle rest : Bytes) → length rest < fuel → Loops (n ∷ needle) rest fuel
loops zero n needle rest h = elim h [ ]
loops (suc fuel) n needle rest h = elim (Option-cases (find_subslice rest (n ∷ needle))) [
  | inl e ↦ Loops-done fuel n needle rest e
  | inr (k, e) ↦
      let f = find_subslice-some rest n needle k e in
      Loops-hit fuel n needle rest k e f
        (loops fuel n needle f.rest (omega (arith, Found-length k (n ∷ needle) rest f)))
]

-- What the call returns for a body with that redaction.
abbrev pub verdict : Bytes → ℕ → Bytes → Result RedactError Bytes
verdict body matches out =
    if matches == 0
    then ok body
    else if ltb max_fetch_body_bytes (length out)
    then err body_too_large
    else ok out

mul-sub : (m a b : ℕ) → b ≤ a → m * (a - b) + m * b ≡ m * a
mul-sub m a b h = let e : a - b + b ≡ a = omega arith in omega (arith, ap (λ (t : ℕ). m * t) e)

-- The precomputed length, its checked arithmetic included, decides as the real length does.
redacted_body_len-length :
    (body_len matches needle_len out_len : ℕ)
    → out_len + matches * needle_len ≡ body_len + matches * 17
    → matches * needle_len ≤ body_len
    → (redacted_body_len body_len matches needle_len 17 ≡ ok out_len)
      ⊎ ((redacted_body_len body_len matches needle_len 17 ≡ err body_too_large)
          × (max_fetch_body_bytes < out_len))
unfolding redacted_body_len
redacted_body_len-length body_len matches needle_len out_len e h =
    ground (arith, mul-sub matches 17 needle_len, mul-sub matches needle_len 17)

redact_found-verdict :
    (body : Bytes) (n : ℕ) (needle : Bytes) (l : Loops (n ∷ needle) body (suc (length body)))
    → redact_found body (n ∷ needle) l.matches ≡ verdict body l.matches l.out
unfolding redact_verbatim_bytes
redact_found-verdict body n needle l = ground (
  arith,
  redacted_body_len-length (length body) l.matches (length (n ∷ needle)) (length l.out) l.lengths
      l.room,
  l.replaces [],
)

-- For every body and every nonempty needle there is a leftmost non-overlapping redaction, and the
-- call returns it, or the size error exactly if there is a match and the redaction is larger than
-- the limit; the loops never run out of fuel.
pub redact_verbatim_bytes_lem :
    (body needle : Bytes)
    → needle ≢ []
    → (matches : ℕ) × (out : Bytes) × Redacts needle matches body out
      × (redact_verbatim_bytes body needle ≡ verdict body matches out)
unfolding redact_verbatim_bytes
redact_verbatim_bytes_lem body [] ne = absurd (ne refl)
redact_verbatim_bytes_lem body (n ∷ needle) ne =
    let l = loops (suc (length body)) n needle body (omega arith) in
    (l.matches, l.out, l.redacts, rw (l.counts 0, zero-add) (redact_found-verdict body n needle l))
