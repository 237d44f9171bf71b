-- ===== src/Prelude/Maps.antt =====
-- Hash maps. Where only lookups matter, a map is a function of its keys; where the entries are
-- counted, it is an association list. Keys compare by an instance of `Eq`.
use mathlib.Core.Path.{◌≡◌, refl}
use mathlib.Core.Logic.{◌↔◌}
use mathlib.Core.Bool.{Bool, true}
use mathlib.Core.List.{List, [], ◌∷◌}
use mathlib.Core.Option.{Option, none, some}
use avault.Prelude.Tests.{if◌then◌else◌}
use avault.Prelude.Bytes.{Bytes, eq_bytes, eq_bytes_iff}

pub record Eq {ℓ} (A : Type ℓ) : Type ℓ where
  pub beq : A → A → Bool
  pub beq_iff : (a b : A) → (beq a b ≡ true) ↔ (a ≡ b)

instance abbrev pub bytes_eq : Eq Bytes
bytes_eq = record { beq = eq_bytes; beq_iff = eq_bytes_iff }

abbrev pub Map {ℓ κ} : Type ℓ → Type κ → Type (ℓ ⊔ κ)
Map K V = K → Option V

module _ {ℓ κ} {K : Type ℓ} {V : Type κ} where
  abbrev pub empty : Map K V
  empty k = none

  -- `retain`, which here looks at the values alone.
  abbrev pub retain : (V → Bool) → Map K V → Map K V
  retain p m k = elim (m k) [ none ↦ none | some v ↦ if p v then some v else none ]

module _ {ℓ κ} {K : Type ℓ} {V : Type κ} ⦃e : Eq K⦄ where
  abbrev pub insert : K → V → Map K V → Map K V
  insert k v m j = if e.beq k j then some v else m j

  abbrev pub remove : K → Map K V → Map K V
  remove k m j = if e.beq k j then none else m j

  -- `extend`.
  abbrev pub extend : List (K × V) → Map K V → Map K V
  extend [] m = m
  extend ((k, v) ∷ kvs) m = extend kvs (insert k v m)

  -- A lookup in an association list; an insertion stands in front.
  unfoldable pub lookup : K → List (K × V) → Option V
  lookup k [] = none
  lookup k ((j, v) ∷ kvs) = if e.beq j k then some v else lookup k kvs

pub beq_refl {ℓ} : {K : Type ℓ} ⦃e : Eq K⦄ (k : K) → e.beq k k ≡ true
beq_refl ⦃e⦄ k = (e.beq_iff k k).1 refl
