-- ===== src/System/Shown.antt =====
-- part3/elevator.c: what /proc/elevator shows of a reachable state.
use kernal_elevator.Base.{
  ℕ, zero, suc, ◌^◌, ◌≤◌, ◌<◌, ◌≡◌, subst, Bool, true, false, some, some_unique, arith, length,
  incr,
}
use kernal_elevator.Elevator.State.{Passenger, Globals, with_mutex, free_list}
use kernal_elevator.Elevator.Calls.{
  start_elevator, add_waiting, request_body, request_section, stop_entry, stop_section,
}
use kernal_elevator.Elevator.Boarding.{
  unload_passengers, load_passengers, load_body, after_loading, disinfect,
}
use kernal_elevator.Elevator.Boarding.Spec.{repeat}
use kernal_elevator.Elevator.Motion.{change_elevator_state, move_elevator}
use kernal_elevator.Elevator.Setup.{setup_elevator}
use kernal_elevator.Elevator.Scheduler.{rest_idle, pause, go_offline, set_off}
use kernal_elevator.Elevator.Invariant.Defs.{Inv}
use kernal_elevator.Elevator.Invariant.Boarding.{gone, unloaded_at, unload_passengers_lem}
use kernal_elevator.System.Defs.{System, init, Reach}
use kernal_elevator.System.Pieces.{IsStepwise, Reach-keeps}

pub record IsShown (g : Globals) : Type 0 where
  pub state_le : g.state ≤ 4
  pub serviced_lt : g.serviced < 2 ^ 32
  pub started_le : g.started ≤ 1
  pub deactiving_le : g.deactiving ≤ 1

repeat-incr_lt : (k n : ℕ) → n < 2 ^ 32 → repeat incr k n < 2 ^ 32
unfolding repeat incr
repeat-incr_lt zero n h = h
repeat-incr_lt (suc k) n h = repeat-incr_lt k (incr n) (omega arith)

module _ (g : Globals) (v : IsShown g) where
  rest_idle-IsShown : IsShown (rest_idle g)
  unfolding rest_idle
  rest_idle-IsShown = ground arith

  pause-IsShown : (m n : ℕ) → IsShown (pause m n g)
  unfolding pause
  pause-IsShown m n = ground arith

  go_offline-IsShown : IsShown (go_offline g)
  unfolding go_offline
  go_offline-IsShown = ground arith

  set_off-IsShown : IsShown (set_off g)
  unfolding set_off change_elevator_state
  set_off-IsShown = ground arith

  move_elevator-IsShown : IsShown (move_elevator g)
  unfolding move_elevator
  move_elevator-IsShown = ground arith

  start_elevator-IsShown : IsShown (start_elevator g).1
  unfolding start_elevator
  start_elevator-IsShown = ground arith

  stop_entry-IsShown : (h : Globals) → stop_entry g ≡ some h → IsShown h
  unfolding stop_entry
  stop_entry-IsShown h e = ground arith

  request_section-IsShown :
      (locked allocated : Bool) (p : Passenger) (h : Globals)
      → request_section locked allocated p g ≡ some (tt, h)
      → IsShown h
  unfolding request_section request_body with_mutex add_waiting
  request_section-IsShown locked allocated p h e = ground arith

  stop_section-IsShown :
      (locked : Bool) (h : Globals) → stop_section locked g ≡ some (tt, h) → IsShown h
  unfolding stop_section with_mutex free_list
  stop_section-IsShown locked h e = ground arith

  load_passengers-IsShown :
      (locked : Bool) (h : Globals) (n : ℕ) → load_passengers locked g ≡ some (n, h) → IsShown h
  unfolding load_passengers with_mutex load_body after_loading
  load_passengers-IsShown locked h n e = ground arith

  unloaded_at-IsShown : IsShown (unloaded_at g)
  unfolding unloaded_at
  unloaded_at-IsShown = ground (arith, repeat-incr_lt (length (gone g)) g.serviced)

  unlocked_unload-IsShown :
      (h : Globals) (n : ℕ) → unload_passengers false g ≡ some (n, h) → IsShown h
  unfolding unload_passengers with_mutex free_list disinfect
  unlocked_unload-IsShown h n e = ground arith

unload_passengers-IsShown :
    (locked : Bool) (g h : Globals) (n : ℕ)
    → Inv g
    → unload_passengers locked g ≡ some (n, h)
    → IsShown g
    → IsShown h
unload_passengers-IsShown true g h n i e v =
    subst (λ r. IsShown r.1) (some_unique (unload_passengers_lem g i) e) (unloaded_at-IsShown g v)
unload_passengers-IsShown false g h n i e v = unlocked_unload-IsShown g v h n e

IsShown-IsStepwise : IsStepwise (λ g h. IsShown g → IsShown h)
IsShown-IsStepwise = record {
  pieces = record {
    same = λ g v. v;
    rests = rest_idle-IsShown;
    pauses = λ g m n v. pause-IsShown g v m n;
    retires = go_offline-IsShown;
    sets_off = set_off-IsShown;
    moves = move_elevator-IsShown;
    unloads = unload_passengers-IsShown;
    loads = λ locked g h n i e v. load_passengers-IsShown g v locked h n e;
  };
  starts = start_elevator-IsShown;
  stop_enters = λ g h e v. stop_entry-IsShown g v h e;
  stops = λ locked g h i e v. stop_section-IsShown g v locked h e;
  requests = λ locked allocated p g h i r e v. request_section-IsShown g v locked allocated p h e;
}

init-IsShown : IsShown init.globals
unfolding init setup_elevator
init-IsShown = omega arith

pub Reach-IsShown : {s : System} → Reach s → IsShown s.globals
Reach-IsShown r = Reach-keeps IsShown IsShown-IsStepwise init-IsShown r
