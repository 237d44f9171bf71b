-- ===== src/Prelude/Action.antt =====
-- Operations on a state that may fail: the state after an operation, and its result or error. An
-- operation that fails keeps the changes that it made before.
use avault.Prelude.{◌≡◌, refl}
use avault.Prelude.Result.{Result, ok, err}

abbrev pub Action {ℓ κ μ} : Type ℓ → Type κ → Type μ → Type (ℓ ⊔ κ ⊔ μ)
Action S E A = S → S × Result E A

module _ {ℓ κ μ} {S : Type ℓ} {E : Type κ} {A : Type μ} where
  abbrev pub done : Result E A → Action S E A
  done r s = (s, r)

  abbrev pub proceed {ν} :
      {B : Type ν} → (Result E A → Action S E B) → S × Result E A → S × Result E B
  proceed k (s, r) = k r s

  -- `match operation { .. }`.
  abbrev pub attempt {ν} : {B : Type ν} → Action S E A → (Result E A → Action S E B) → Action S E B
  attempt m k s = proceed k (m s)

  abbrev pub or_raise {ν} : {B : Type ν} → (A → Action S E B) → Result E A → Action S E B
  or_raise f (ok a) s = f a s
  or_raise f (err e) s = (s, err e)

infixl 5 ◌>>=◌ ◌>>◌
-- `operation?`.
abbrev pub ◌>>=◌ {ℓ κ μ ν} :
    {S : Type ℓ} {E : Type κ} {A : Type μ} {B : Type ν}
    → Action S E A
    → (A → Action S E B)
    → Action S E B
m >>= f = attempt m (or_raise f)

abbrev pub ◌>>◌ {ℓ κ ν} :
    {S : Type ℓ} {E : Type κ} {B : Type ν} → Action S E (Unit {0}) → Action S E B → Action S E B
m >> k = m >>= λ _. k

-- From a state where `P` holds, the operation ends with a result and a state that `Q` accepts.
abbrev pub Triple {ℓ κ μ} :
    {S : Type ℓ} {E : Type κ} {A : Type μ}
    → (S → Type 0)
    → Action S E A
    → (Result E A → S → Type 0)
    → Type ℓ
Triple {S = S} P m Q = (s : S) → P s → Q (m s).1 (m s).0

module _ {ℓ κ μ ν} {S : Type ℓ} {E : Type κ} {A : Type μ} {B : Type ν} where
  pub attempt-Triple :
      (P : S → Type 0) (R : Result E A → S → Type 0) (Q : Result E B → S → Type 0)
      (m : Action S E A) (k : Result E A → Action S E B)
      → Triple P m R
      → ((r : Result E A) → Triple (R r) (k r) Q)
      → Triple P (attempt m k) Q
  attempt-Triple P R Q m k first later s p = later (m s).1 (m s).0 (first s p)

  pub bind-Triple :
      (P : S → Type 0) (R : Result E A → S → Type 0) (Q : Result E B → S → Type 0)
      (m : Action S E A) (f : A → Action S E B)
      → Triple P m R
      → ((e : E) (s : S) → R (err e) s → Q (err e) s)
      → ((a : A) → Triple (R (ok a)) (f a) Q)
      → Triple P (m >>= f) Q
  bind-Triple P R Q m f first fails later s p = after (m s).1 (m s).0 (first s p)
    where
      after : (r : Result E A) (t : S) → R r t → Q (or_raise f r t).1 (or_raise f r t).0
      after (ok a) t h = later a t h
      after (err e) t h = fails e t h

  pub step-eq-ok :
      (m : Action S E A) (f : A → Action S E B) (s : S) {b : B}
      → ((m >>= f) s).1 ≡ ok b
      → (a : A) × ((m s).1 ≡ ok a) × ((f a (m s).0).1 ≡ ok b)
  step-eq-ok m f s h = after (m s).1 (m s).0 h
    where
      after :
          (r : Result E A) (t : S) {b : B}
          → (or_raise f r t).1 ≡ ok b
          → (a : A) × (r ≡ ok a) × ((f a t).1 ≡ ok b)
      after (ok a) t h = (a, refl, h)
      after (err e) t h = cc
