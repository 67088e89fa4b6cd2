-- ===== src/Elevator/Service/Reaches.antt =====
-- part3/elevator.c: the car of `scheduler` on its way to a floor, while a fact holds.
use native.Mathlib.Decide.{ℕ_discrete}
use kernal_elevator.Base.{
  ℕ, zero, suc, ◌+◌, ◌*◌, ◌≤◌, ◌≡◌, refl, ◌∙◌, ap, ◌≢◌, some, arith, replicate,
}
use kernal_elevator.Elevator.State.{Globals, floors}
use kernal_elevator.Elevator.Scheduler.{scheduler_round, scheduler}
use kernal_elevator.Elevator.Invariant.Defs.{Inv}
use kernal_elevator.Elevator.Invariant.Motion.{Position, position, sweep}
use kernal_elevator.Elevator.Invariant.Scheduler.{scheduler_turn}
use kernal_elevator.Elevator.Service.Sweep.{moves, sweep-Visits}
use kernal_elevator.Elevator.Service.Turn.{willing}

-- Within `bound` turns that are not preempted, and 3 seconds of sleep for each, `P` holds.
pub record Reaches (g : Globals) (P : Globals → Type 0) (bound : ℕ) : Type 0 where
  pub turns : ℕ
  pub at : Globals
  pub turns_le : turns ≤ bound
  pub runs : scheduler (replicate turns willing) g ≡ some at
  pub inv : Inv at
  pub holds : P at
  pub in_time : at.clock ≤ g.clock + 3 * turns

-- A turn that moves the car on, and keeps `Q`.
pub record MovesOn (g : Globals) (Q : Globals → Type 0) : Type 0 where
  pub after : Globals
  pub runs : scheduler_round willing g ≡ some after
  pub inv : Inv after
  pub keeps : Q after
  pub place : position after ≡ sweep (position g)
  pub time : after.clock ≤ g.clock + 3

module _ (Q : Globals → Type 0) (floor : ℕ) where
  abbrev pub Stands : Globals → Type 0
  Stands h = (h.current_floor ≡ floor) × Q h

  Stands-now : (k : ℕ) (g : Globals) → Inv g → Q g → g.current_floor ≡ floor → Reaches g Stands k
  unfolding scheduler
  Stands-now k g v q here = record {
    turns = 0;
    at = g;
    turns_le = omega arith;
    runs = refl;
    inv = v;
    holds = (here, q);
    in_time = omega arith;
  }

  one_more :
      (k : ℕ) (g : Globals) (m : MovesOn g Q) → Reaches m.after Stands k → Reaches g Stands (suc k)
  one_more k g m r = record {
    turns = suc r.turns;
    at = r.at;
    turns_le = omega (arith, r.turns_le);
    runs = scheduler_turn willing (replicate r.turns willing) g m.after refl m.runs ∙ r.runs;
    inv = r.inv;
    holds = r.holds;
    in_time = omega (arith, r.in_time, m.time);
  }

  module _ (step : (g : Globals) → Inv g → Q g → g.current_floor ≢ floor → MovesOn g Q) where
    Reaches-after :
        (k : ℕ) (g : Globals)
        → Inv g
        → Q g
        → (moves k (position g)).current ≡ floor
        → Reaches g Stands k
    unfolding moves
    Reaches-after zero g v q e = Stands-now 0 g v q e
    Reaches-after (suc k) g v q e = elim (ℕ_discrete g.current_floor floor) [
      | yes here ↦ Stands-now (suc k) g v q here
      | no ne ↦
          let m = step g v q ne in
          one_more k g m (
            Reaches-after k m.after m.inv m.keeps
              (ap (λ (p : Position). (moves k p).current) m.place ∙ e))
    ]

    pub reaches : (g : Globals) → Inv g → Q g → 1 ≤ floor → floor ≤ floors → Reaches g Stands 17
    reaches g v q h l =
        let (k, b, e) = sweep-Visits (position g) floor v.track h l in
        weaken k b (Reaches-after k g v q e)
      where
        weaken : (k : ℕ) → k ≤ 17 → Reaches g Stands k → Reaches g Stands 17
        weaken k b r = record {
          turns = r.turns;
          at = r.at;
          turns_le = omega (arith, r.turns_le);
          runs = r.runs;
          inv = r.inv;
          holds = r.holds;
          in_time = r.in_time;
        }
