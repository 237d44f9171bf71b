-- ===== src/Redact/Spec.antt =====
-- What redaction means: each leftmost occurrence of the needle, none overlapping the one before,
-- is replaced by the redaction text.
use avault.Prelude.{
  ℕ, zero, suc, ◌+◌, ◌<◌, ◌≡◌, refl, ap, inl, inr, true, false, none, some, [], ◌∷◌, ◌++◌, arith,
  Bool-cases, Option-cases, length, take, drop, length-append, take-append, drop-append-append,
}
use avault.Prelude.Bytes.{Bytes, starts_with}
use avault.Redact.{fetch_redaction, find_subslice}

-- No occurrence of the needle starts before position `k`.
abbrev pub FreeBefore : ℕ → Bytes → Bytes → Type 0
FreeBefore k needle body = (i : ℕ) → i < k → starts_with (drop i body) needle ≡ false

abbrev pub IsFree : Bytes → Bytes → Type 0
IsFree needle body = (i : ℕ) → starts_with (drop i body) needle ≡ false

-- `Redacts needle k body out`: `out` is `body` with its `k` matches replaced.
pub data Redacts (needle : Bytes) : ℕ → Bytes → Bytes → Type 0 where
  done : {body : Bytes} → IsFree needle body → Redacts needle zero body body
  hit :
      {k : ℕ} {body out : Bytes} (before rest redacted : Bytes)
      → body ≡ before ++ (needle ++ rest)
      → FreeBefore (length before) needle body
      → Redacts needle k rest redacted
      → out ≡ before ++ (fetch_redaction ++ redacted)
      → Redacts needle (suc k) body out

pub starts_with-append :
    (xs needle : Bytes) → starts_with xs needle ≡ true → xs ≡ needle ++ drop (length needle) xs
unfolding starts_with
starts_with-append xs [] h = refl
starts_with-append [] (y ∷ ys) h = cc
starts_with-append (x ∷ xs) (y ∷ ys) h = ground (arith, starts_with-append xs ys)

pub find_subslice-none :
    (body : Bytes) (n : ℕ) (needle : Bytes)
    → find_subslice body (n ∷ needle) ≡ none
    → IsFree (n ∷ needle) body
unfolding find_subslice starts_with
find_subslice-none [] n needle h zero = refl
find_subslice-none [] n needle h (suc i) = refl
find_subslice-none (x ∷ xs) n needle h zero = ground arith
find_subslice-none (x ∷ xs) n needle h (suc i) = find_subslice-none xs n needle (ground arith) i

-- Where `find_subslice` points, the needle stands, and nowhere before.
pub record Found (k : ℕ) (needle body : Bytes) : Type 0 where
  pub before : Bytes
  pub rest : Bytes
  pub splits : body ≡ before ++ (needle ++ rest)
  pub position : k ≡ length before
  pub first : FreeBefore k needle body

Found-here : (xs needle : Bytes) → starts_with xs needle ≡ true → Found 0 needle xs
Found-here xs needle h = record {
  before = [];
  rest = drop (length needle) xs;
  splits = starts_with-append xs needle h;
  position = refl;
  first = λ i l. elim l [ ];
}

Found-suc :
    (k x n : ℕ) (xs needle : Bytes)
    → starts_with (x ∷ xs) (n ∷ needle) ≡ false
    → Found k (n ∷ needle) xs
    → Found (suc k) (n ∷ needle) (x ∷ xs)
Found-suc k x n xs needle miss f = record {
  before = x ∷ f.before;
  rest = f.rest;
  splits = ap (◌∷◌ x) f.splits;
  position = ap suc f.position;
  first = first;
}
  where
    first : FreeBefore (suc k) (n ∷ needle) (x ∷ xs)
    first zero h = miss
    first (suc i) h = f.first i (omega arith)

pub find_subslice-some :
    (body : Bytes) (n : ℕ) (needle : Bytes) (k : ℕ)
    → find_subslice body (n ∷ needle) ≡ some k
    → Found k (n ∷ needle) body
unfolding find_subslice
find_subslice-some [] n needle k h = cc
find_subslice-some (x ∷ xs) n needle k h = elim (Bool-cases (starts_with (x ∷ xs) (n ∷ needle))) [
  | inl e ↦ let z : 0 ≡ k = ground arith in rw (← z) (Found-here (x ∷ xs) (n ∷ needle) e)
  | inr e ↦ elim (Option-cases (find_subslice xs (n ∷ needle))) [
    | inl nope ↦ absurd (ground arith)
    | inr (j, found) ↦
        let s : suc j ≡ k = ground arith in
        rw (← s) (Found-suc j x n xs needle e (find_subslice-some xs n needle j found))
  ]
]

module _ (k : ℕ) (needle body : Bytes) (f : Found k needle body) where
  pub Found-drop : drop (k + length needle) body ≡ f.rest
  Found-drop = rw (f.position, f.splits) (drop-append-append f.before needle f.rest)

  pub Found-take : take k body ≡ f.before
  Found-take = rw (f.position, f.splits) (take-append f.before (needle ++ f.rest))

  pub Found-length : length body ≡ k + length needle + length f.rest
  Found-length = omega (
    arith,
    ap length f.splits,
    f.position,
    length-append f.before (needle ++ f.rest),
    length-append needle f.rest,
  )
