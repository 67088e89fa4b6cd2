-- ===== src/System/Exits.antt =====
-- part3/elevator.c: `kthread_stop` in `elevator_exit`, which waits for the thread of `scheduler`.
use kernal_elevator.Base.{ℕ, zero, suc, ◌-◌, ◌≤◌, ◌≡◌, refl, ap, true, false, some, arith}
use kernal_elevator.Elevator.State.{Globals}
use kernal_elevator.Elevator.Scheduler.{
  Answers, Pc, top, unloading, boarding, pausing, deciding, moving, exited, scheduler_step,
}
use kernal_elevator.System.Defs.{
  System, Step, schedule, start, request, stop, requested, stopped, Run, stay, go, Reach,
}
use kernal_elevator.Elevator.Setup.{Registration, elevator_exit}
use kernal_elevator.Elevator.Invariant.Scheduler.{scheduler_step-Inv}
use kernal_elevator.Elevator.Contract.Stations.{exit_frees_all}
use kernal_elevator.Elevator.Service.Turn.{willing}
use kernal_elevator.System.Reach.{Reach-Inv, Reach-Knows, Run-Reach}
use kernal_elevator.System.Liveness.{tick, ticks, Always}

-- Every answer that the thread gets tells it to stop.
abbrev pub IsTold : (s t : System) → Step s t → Type 0
IsTold s t (schedule a _) = a.should_stop ≡ true
IsTold s t _ = Unit

-- The pieces that are left of the turn, and the last one.
abbrev left : Pc → ℕ
left exited = 0
left top = 1
left moving = 2
left deciding = 3
left (pausing _ _) = 4
left (boarding _) = 5
left unloading = 6

scheduler_step-left :
    (a : Answers) (pc pc' : Pc) (g h : Globals)
    → a.should_stop ≡ true
    → scheduler_step a pc g ≡ some (pc', h)
    → left pc' ≤ left pc - 1
unfolding scheduler_step
scheduler_step-left a top pc' g h o e = ground arith
scheduler_step-left a unloading pc' g h o e = ground arith
scheduler_step-left a (boarding m) pc' g h o e = ground arith
scheduler_step-left a (pausing m n) pc' g h o e = ground arith
scheduler_step-left a deciding pc' g h o e = ground arith
scheduler_step-left a moving pc' g h o e = ground arith
scheduler_step-left a exited pc' g h o e = ground arith

Step-left :
    {s t : System} (st : Step s t)
    → IsTold s t st
    → (n : ℕ) → left s.pc ≤ 6 - n
    → left t.pc ≤ 6 - tick st n
Step-left {s} {t} (schedule a e) o n b =
    let l : left t.pc ≤ left s.pc - 1 = scheduler_step-left a s.pc t.pc s.globals t.globals o e in
    omega arith
Step-left start o n b = b
Step-left (request _ _ _ _ _) o n b = b
Step-left (stop _) o n b = b
Step-left (requested _ _ _ _ _ _ _) o n b = b
Step-left (stopped _ _ _ _ _) o n b = b

left_bound : (pc : Pc) → left pc ≤ 6
left_bound exited = omega arith
left_bound top = omega arith
left_bound unloading = omega arith
left_bound (boarding _) = omega arith
left_bound (pausing _ _) = omega arith
left_bound deciding = omega arith
left_bound moving = omega arith

Run-left : {s t : System} (run : Run s t) → Always IsTold run → left t.pc ≤ 6 - ticks run
Run-left {s} stay o = left_bound s.pc
Run-left (go run st) (o, os) = Step-left st os (ticks run) (Run-left run o)

left_none : (pc : Pc) → left pc ≤ 0 → pc ≡ exited
left_none exited l = refl
left_none top l = absurd (omega arith)
left_none unloading l = absurd (omega arith)
left_none (boarding _) l = absurd (omega arith)
left_none (pausing _ _) l = absurd (omega arith)
left_none deciding l = absurd (omega arith)
left_none moving l = absurd (omega arith)

-- From a reachable state there is such a run of any length.
pub record Told (s : System) (n : ℕ) : Type 0 where
  pub after : System
  pub run : Run s after
  pub told : Always IsTold run
  pub pieces : ticks run ≡ n

abbrev dismissed : Answers
dismissed = record willing { should_stop = true }

pub told : (n : ℕ) (s : System) → Reach s → Told s n
told zero s r = record { after = s; run = stay; told = tt; pieces = refl }
told (suc n) s r =
    let a = told n s r in
    let t = a.after in
    let rt = Run-Reach a.run r in
    let (pc, h, f, _, _) =
      scheduler_step-Inv dismissed t.pc t.globals (Reach-Inv rt) (Reach-Knows rt) in
    record {
      after = record { globals = h; pc = pc; pending = t.pending };
      run = go a.run (schedule dismissed f);
      told = (a.told, refl);
      pieces = ap suc a.pieces;
    }

-- In every run of the threads from a reachable state in which every answer of
-- `kthread_should_stop` is yes, whatever calls come in between, the scheduler has exited once it
-- has taken 6 pieces. From then on, if the lock is granted, unloading the module returns with no
-- passenger block live, and with the stubs, the proc entry and the thread taken back.
pub unloads :
    {s t : System} (run : Run s t) (r : Registration)
    → Reach s
    → Always IsTold run
    → 6 ≤ ticks run
    → (t.pc ≡ exited)
      × (h : Globals) × (elevator_exit true t.globals r
          ≡ some (h, record r { stubs = false; proc_entry = false; thread = false }))
      × (h.live ≡ 0)
unloads {s} {t} run r reach o e =
    let (h, f, l) = exit_frees_all t.globals r (Reach-Inv (Run-Reach run reach)) in
    (left_none t.pc (omega (arith, Run-left run o, e)), h, f, l)
