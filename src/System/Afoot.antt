-- ===== src/System/Afoot.antt =====
-- part3/elevator.c: runs of the threads in which no request and no stop gets the mutex.
use kernal_elevator.Base.{◌^◌, ◌<◌, ◌≡◌, ◌≢◌, refl, false, some, arith}
use kernal_elevator.Elevator.State.{Globals}
use kernal_elevator.Elevator.Scheduler.{
  Answers, Pc, top, unloading, boarding, pausing, deciding, moving, exited, scheduler_step,
}
use kernal_elevator.System.Defs.{
  System, Step, schedule, start, request, stop, requested, stopped, Reach, Run, stay, go,
}
use kernal_elevator.System.Reach.{Run-Reach}
use kernal_elevator.System.Liveness.{IsUndisturbed, Always}
use kernal_elevator.System.Rides.{CarriesOn}
use kernal_elevator.System.Visits.{GoesOn}
use kernal_elevator.System.Cuts.{chain, Always-chain}
use kernal_elevator.System.Ebb.{IsEven, Ebb, Run-Ebb}

pub carries_on : {s t : System} (run : Run s t) → Always IsUndisturbed run → Always CarriesOn run
carries_on stay o = tt
carries_on (go run st) (o, z) = (carries_on run o, step st z)
  where
    step : {s t : System} (st : Step s t) → IsUndisturbed s t st → CarriesOn s t st
    step (schedule a e) z = (z.0, z.1)
    step start z = tt
    step (request _ _ _ _ _) z = tt
    step (stop _) z = tt
    step (requested _ _ _ _ _ _ _) z = absurd z
    step (stopped _ _ _ _ _) z = absurd z

pub goes_on :
    {s t : System} (run : Run s t)
    → Reach s
    → s.globals.live < 2 ^ 32
    → Always IsUndisturbed run
    → Always GoesOn run
goes_on stay r few o = tt
goes_on (go {t} run st) r few (o, z) =
    (goes_on run r few o, step t st (omega (arith, (Run-Ebb run r o).fewer)) z)
  where
    step :
        (s : System) {t : System} (st : Step s t)
        → s.globals.live < 2 ^ 32
        → IsUndisturbed s t st
        → GoesOn s t st
    step s (schedule a e) few z = (z.0, few)
    step s start few z = tt
    step s (request _ _ _ _ _) few z = tt
    step s (stop _) few z = tt
    step s (requested _ _ _ _ _ _ _) few z = absurd z
    step s (stopped _ _ _ _ _) few z = absurd z

-- The thread does not exit if it is not told to.
piece-awake :
    (a : Answers) (pc pc' : Pc) (g h : Globals)
    → a.should_stop ≡ false
    → pc ≢ exited
    → scheduler_step a pc g ≡ some (pc', h)
    → pc' ≢ exited
unfolding scheduler_step
piece-awake a top pc' g h o w e = λ x. ground arith
piece-awake a unloading pc' g h o w e = λ x. ground arith
piece-awake a (boarding m) pc' g h o w e = λ x. ground arith
piece-awake a (pausing m n) pc' g h o w e = λ x. ground arith
piece-awake a deciding pc' g h o w e = λ x. ground arith
piece-awake a moving pc' g h o w e = λ x. ground arith
piece-awake a exited pc' g h o w e = absurd (w refl)

-- What a run needs from its beginning on.
pub record Afoot {s t : System} (run : Run s t) : Type 0 where
  pub reach : Reach s
  pub awake : s.pc ≢ exited
  pub even : IsEven s.globals
  pub few : s.globals.live < 2 ^ 32
  pub undisturbed : Always IsUndisturbed run

Step-awake : {s t : System} (st : Step s t) → IsUndisturbed s t st → s.pc ≢ exited → t.pc ≢ exited
Step-awake {s} {t} (schedule a e) z w = piece-awake a s.pc t.pc s.globals t.globals z.0 w e
Step-awake start z w = w
Step-awake (request _ _ _ _ _) z w = w
Step-awake (stop _) z w = w
Step-awake (requested _ _ _ _ _ _ _) z w = absurd z
Step-awake (stopped _ _ _ _ _) z w = absurd z

Run-awake :
    {s t : System} (run : Run s t) → Always IsUndisturbed run → s.pc ≢ exited → t.pc ≢ exited
Run-awake stay o w = w
Run-awake (go run st) (o, z) w = Step-awake st z (Run-awake run o w)

module _ {s t u : System} (a : Run s t) (b : Run t u) (w : Afoot (chain a b)) where
  before-IsUndisturbed : Always IsUndisturbed a
  before-IsUndisturbed = (Always-chain IsUndisturbed a b w.undisturbed).0

  pub Afoot-Ebb : Ebb s.globals t.globals
  Afoot-Ebb = Run-Ebb a w.reach before-IsUndisturbed

  pub Afoot-before : Afoot a
  Afoot-before = record {
    reach = w.reach;
    awake = w.awake;
    even = w.even;
    few = w.few;
    undisturbed = before-IsUndisturbed;
  }

  pub Afoot-after : Afoot b
  Afoot-after = record {
    reach = Run-Reach a w.reach;
    awake = Run-awake a before-IsUndisturbed w.awake;
    even = Afoot-Ebb.even w.even;
    few = omega (arith, Afoot-Ebb.fewer, w.few);
    undisturbed = (Always-chain IsUndisturbed a b w.undisturbed).1;
  }
