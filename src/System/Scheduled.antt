-- ===== src/System/Scheduled.antt =====
-- part3/elevator.c: runs of `scheduler` alone, as the liveness theorems ask for.
use kernal_elevator.Base.{
  ℕ, zero, suc, ◌≤◌, ◌<◌, ◌^◌, ◌≡◌, refl, ap, subst, Bool, true, false, some, some_unique, arith,
}
use kernal_elevator.Elevator.State.{Globals, with_mutex, free_list, free_all, set_state, ssleep}
use kernal_elevator.Elevator.Boarding.{
  unload_passengers, disinfect, load_passengers, load_body, after_loading,
}
use kernal_elevator.Elevator.Motion.{change_elevator_state, move_elevator}
use kernal_elevator.Elevator.Scheduler.{rest_idle, pause, go_offline, set_off}
use kernal_elevator.Elevator.Invariant.Defs.{Inv}
use kernal_elevator.Elevator.Invariant.Scheduler.{scheduler_step-Inv}
use kernal_elevator.Elevator.Contract.Loading.{unload_rules}
use kernal_elevator.Elevator.Service.Turn.{willing}
use kernal_elevator.System.Defs.{System, schedule, Reach, Run, stay, go}
use kernal_elevator.System.Reach.{Reach-Inv, Reach-Knows, Run-Reach}
use kernal_elevator.System.Pieces.{IsPiecewise, scheduler_step-keeps}
use kernal_elevator.System.Liveness.{ticks, Always, IsUndisturbed}
use kernal_elevator.System.Rides.{CarriesOn}
use kernal_elevator.System.Visits.{GoesOn}

module _ (g : Globals) where
  unload_live :
      (locked : Bool) (h : Globals) (n : ℕ)
      → Inv g
      → unload_passengers locked g ≡ some (n, h)
      → h.live ≤ g.live
  unfolding unload_passengers with_mutex free_list free_all disinfect
  unload_live true h n v e =
      let (m, k, f, u) = unload_rules g v in
      subst (λ o. o.1.live ≤ g.live) (some_unique f e) (omega (arith, u.freed))
  unload_live false h n v e = ground arith

  load_live :
      (locked : Bool) (h : Globals) (n : ℕ)
      → load_passengers locked g ≡ some (n, h)
      → h.live ≤ g.live
  unfolding load_passengers with_mutex load_body after_loading
  load_live locked h n e = ground arith

  rest_idle_live : (rest_idle g).live ≤ g.live
  unfolding rest_idle set_state ssleep
  rest_idle_live = ground arith

  pause_live : (m n : ℕ) → (pause m n g).live ≤ g.live
  unfolding pause set_state ssleep
  pause_live m n = ground arith

  go_offline_live : (go_offline g).live ≤ g.live
  unfolding go_offline
  go_offline_live = ground arith

  set_off_live : (set_off g).live ≤ g.live
  unfolding set_off change_elevator_state set_state ssleep
  set_off_live = ground arith

  move_elevator_live : (move_elevator g).live ≤ g.live
  unfolding move_elevator
  move_elevator_live = ground arith

abbrev pub NoMore : Globals → Globals → Type 0
NoMore g h = h.live ≤ g.live

pub NoMore-IsPiecewise : IsPiecewise NoMore
NoMore-IsPiecewise = record {
  same = λ g. omega arith;
  rests = rest_idle_live;
  pauses = λ g m n. pause_live g m n;
  retires = go_offline_live;
  sets_off = set_off_live;
  moves = move_elevator_live;
  unloads = λ locked g h n v e. unload_live g locked h n v e;
  loads = λ locked g h n v e. load_live g locked h n e;
}

-- A run of so many pieces of the scheduler alone, with the mutex at hand.
pub record Alone (s : System) (n : ℕ) : Type 0 where
  pub after : System
  pub run : Run s after
  pub pieces : ticks run ≡ n
  pub carries_on : Always CarriesOn run
  pub goes_on : Always GoesOn run
  pub undisturbed : Always IsUndisturbed run
  pub no_more : after.globals.live ≤ s.globals.live

-- From a reachable state with fewer than 2 ^ 32 passengers there is such a run of any length.
pub alone : (n : ℕ) (s : System) → Reach s → s.globals.live < 2 ^ 32 → Alone s n
alone zero s r few = record {
  after = s;
  run = stay;
  pieces = refl;
  carries_on = tt;
  goes_on = tt;
  undisturbed = tt;
  no_more = omega arith;
}
alone (suc n) s r few =
    let a = alone n s r few in
    let t = a.after in
    let rt = Run-Reach a.run r in
    let (pc, h, f, _, _) =
      scheduler_step-Inv willing t.pc t.globals (Reach-Inv rt) (Reach-Knows rt) in
    let k =
      scheduler_step-keeps NoMore NoMore-IsPiecewise willing t.pc pc t.globals h (Reach-Inv rt) f in
    record {
      after = record { globals = h; pc = pc; pending = t.pending };
      run = go a.run (schedule willing f);
      pieces = ap suc a.pieces;
      carries_on = (a.carries_on, (refl, refl));
      goes_on = (a.goes_on, (refl, omega (arith, a.no_more)));
      undisturbed = (a.undisturbed, (refl, refl, refl));
      no_more = omega (arith, a.no_more, k);
    }
