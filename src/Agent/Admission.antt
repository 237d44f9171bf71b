-- ===== src/Agent/Admission.antt =====
-- Admission of connections: `AgentAdmission::try_admit` and the drop of an `AgentPermit`, of
-- crates/avault-cli/src/main.rs. Each atomic access is one step of one thread; a weak exchange may
-- fail although the value is the expected one.
use avault.Prelude.{
  ℕ, ◌+◌, ◌-◌, ◌%◌, ◌^◌, ◌≤◌, ◌<◌, ◌≡◌, ap, Bool, not, ◌&&◌, List, [], ◌∷◌, ◌++◌, arith, ltb, ◌==◌,
  if◌then◌else◌, within,
}

-- Where a thread stands in `try_admit`: before it, in the loop with the value that it saw, or behind
-- it with a permit or with none.
pub data Phase : Type 0 where
  outside admitted refused : Phase
  holding : ℕ → Phase

-- One round of the loop: the test, and the exchange.
unfoldable pub attempt : ℕ → ℕ → ℕ → Bool → ℕ × Phase
attempt limit active seen spurious =
    if ltb seen limit
    then if seen == active && not spurious then (active + 1, admitted) else (active, holding active)
    else (active, refused)

-- `fetch_sub(1)` on a `usize`, which wraps.
unfoldable pub drop_permit : ℕ → ℕ
drop_permit active = (active + (2 ^ 64 - 1)) % 2 ^ 64

pub record Admission : Type 0 where
  pub active : ℕ
  pub phases : List Phase

-- One thread moves; the others stay as they are.
pub data Step (limit : ℕ) (g : Admission) : Admission → Type 0 where
  loads :
      (before after : List Phase)
      → g.phases ≡ before ++ outside ∷ after
      → Step limit g (record g { phases = before ++ holding g.active ∷ after })
  attempts :
      (before after : List Phase) (seen : ℕ) (spurious : Bool)
      → g.phases ≡ before ++ holding seen ∷ after
      → Step limit g (record {
        active = (attempt limit g.active seen spurious).0;
        phases = before ++ (attempt limit g.active seen spurious).1 ∷ after;
      })
  drops :
      (before after : List Phase)
      → g.phases ≡ before ++ admitted ∷ after
      → Step limit g (record { active = drop_permit g.active; phases = before ++ outside ∷ after })
  retries :
      (before after : List Phase)
      → g.phases ≡ before ++ refused ∷ after
      → Step limit g (record g { phases = before ++ outside ∷ after })

pub data Reach (limit : ℕ) (g : Admission) : Admission → Type 0 where
  here : Reach limit g g
  next : {h k : Admission} → Reach limit g h → Step limit h k → Reach limit g k

abbrev pub permits_of : Phase → ℕ
permits_of admitted = 1
permits_of outside = 0
permits_of refused = 0
permits_of (holding seen) = 0

abbrev pub permits : List Phase → ℕ
permits [] = 0
permits (p ∷ ps) = permits_of p + permits ps

permits-append : (ps qs : List Phase) → permits (ps ++ qs) ≡ permits ps + permits qs
permits-append [] qs = omega arith
permits-append (p ∷ ps) qs = omega (arith, permits-append ps qs)

permits_at :
    (before after : List Phase) (p : Phase)
    → permits (before ++ p ∷ after) ≡ permits before + permits_of p + permits after
permits_at before after p = omega (arith, permits-append before (p ∷ after))

-- The counter is the number of permits held, and within the limit.
pub record IsBounded (limit : ℕ) (g : Admission) : Type 0 where
  pub counted : g.active ≡ permits g.phases
  pub bounded : g.active ≤ limit

attempt_bounds :
    (limit active seen : ℕ) (spurious : Bool)
    → active ≤ limit
    → ((attempt limit active seen spurious).0
        ≡ active + permits_of (attempt limit active seen spurious).1)
      × ((attempt limit active seen spurious).0 ≤ limit)
unfolding attempt
attempt_bounds limit active seen spurious h = ground arith

Step-IsBounded :
    {limit : ℕ} {g h : Admission}
    → limit < 2 ^ 64
    → Step limit g h
    → IsBounded limit g
    → IsBounded limit h
unfolding drop_permit
Step-IsBounded {limit} {g} w (loads before after e) v = record {
  counted = omega (
    arith,
    v.counted,
    ap permits e,
    permits_at before after outside,
    permits_at before after (holding g.active),
  );
  bounded = v.bounded;
}
Step-IsBounded {limit} {g} w (attempts before after seen spurious e) v =
    let (moved, within) = attempt_bounds limit g.active seen spurious v.bounded in
    record {
      counted = omega (
        arith,
        v.counted,
        moved,
        ap permits e,
        permits_at before after (holding seen),
        permits_at before after (attempt limit g.active seen spurious).1,
      );
      bounded = within;
    }
Step-IsBounded w (drops before after e) v = record {
  counted = omega (
    arith,
    v.counted,
    v.bounded,
    ap permits e,
    permits_at before after outside,
    permits_at before after admitted,
  );
  bounded = omega (arith, v.counted, v.bounded, ap permits e, permits_at before after admitted);
}
Step-IsBounded w (retries before after e) v = record {
  counted = omega (
    arith,
    v.counted,
    ap permits e,
    permits_at before after outside,
    permits_at before after refused,
  );
  bounded = v.bounded;
}

-- In every interleaving that starts so, the admission counter equals the number of permits held
-- and stays within the limit, which is below 2^64.
pub Reach-IsBounded :
    {limit : ℕ} {g h : Admission}
    → limit < 2 ^ 64
    → Reach limit g h
    → IsBounded limit g
    → IsBounded limit h
Reach-IsBounded w here v = v
Reach-IsBounded w (next r st) v = Step-IsBounded w st (Reach-IsBounded w r v)
