-- ===== src/System/Refusals.antt =====
-- part3/elevator.c: `issue_request` after a stop, until somebody starts the elevator again.
use kernal_elevator.Base.{ℕ, ◌≡◌, inl, Bool, some, arith}
use kernal_elevator.Elevator.State.{Passenger, Globals, with_mutex, free_list, set_state, ssleep}
use kernal_elevator.Elevator.Calls.{
  request_body, request_section, add_waiting, stop_entry, stop_body, stop_section,
}
use kernal_elevator.Elevator.Boarding.{
  unload_passengers, unload_body, disinfect, load_passengers, load_body, after_loading,
}
use kernal_elevator.Elevator.Motion.{change_elevator_state, move_elevator}
use kernal_elevator.Elevator.Scheduler.{rest_idle, pause, go_offline, set_off}
use kernal_elevator.Elevator.Contract.Requests.{IsInts, issue, issue_refuses}
use kernal_elevator.System.Defs.{
  System, Step, schedule, start, request, stop, requested, stopped, Reach, next,
}
use kernal_elevator.System.Reach.{Reach-Inv}
use kernal_elevator.System.Pieces.{IsPiecewise, scheduler_step-keeps}

-- The flag is not set by anything but `start_elevator`.
abbrev StaysOff : Globals → Globals → Type 0
StaysOff g h = g.started ≡ 0 → h.started ≡ 0

module _ (g : Globals) (z : g.started ≡ 0) where
  rest_idle-off : (rest_idle g).started ≡ 0
  unfolding rest_idle set_state ssleep
  rest_idle-off = ground arith

  pause-off : (m n : ℕ) → (pause m n g).started ≡ 0
  unfolding pause set_state ssleep
  pause-off m n = ground arith

  go_offline-off : (go_offline g).started ≡ 0
  unfolding go_offline
  go_offline-off = ground arith

  set_off-off : (set_off g).started ≡ 0
  unfolding set_off change_elevator_state set_state ssleep
  set_off-off = ground arith

  move_elevator-off : (move_elevator g).started ≡ 0
  unfolding move_elevator
  move_elevator-off = ground arith

  unload-off :
      (locked : Bool) (h : Globals) (n : ℕ)
      → unload_passengers locked g ≡ some (n, h)
      → h.started ≡ 0
  unfolding unload_passengers with_mutex unload_body disinfect free_list
  unload-off locked h n e = ground arith

  load-off :
      (locked : Bool) (h : Globals) (n : ℕ) → load_passengers locked g ≡ some (n, h) → h.started ≡ 0
  unfolding load_passengers with_mutex load_body after_loading
  load-off locked h n e = ground arith

  stop_entry-off : (h : Globals) → stop_entry g ≡ some h → h.started ≡ 0
  unfolding stop_entry
  stop_entry-off h e = ground arith

  stop_section-off :
      (locked : Bool) (h : Globals) → stop_section locked g ≡ some (tt, h) → h.started ≡ 0
  unfolding stop_section with_mutex stop_body free_list
  stop_section-off locked h e = ground arith

  request_section-off :
      (locked allocated : Bool) (p : Passenger) (h : Globals)
      → request_section locked allocated p g ≡ some (tt, h)
      → h.started ≡ 0
  unfolding request_section request_body with_mutex add_waiting
  request_section-off locked allocated p h e = ground arith

StaysOff-IsPiecewise : IsPiecewise StaysOff
StaysOff-IsPiecewise = record {
  same = λ g z. z;
  rests = rest_idle-off;
  pauses = λ g m n z. pause-off g z m n;
  retires = go_offline-off;
  sets_off = set_off-off;
  moves = move_elevator-off;
  unloads = λ locked g h n v e z. unload-off g z locked h n e;
  loads = λ locked g h n v e z. load-off g z locked h n e;
}

abbrev pub IsNotStart : {s t : System} → Step s t → Type 0
IsNotStart start = ⊥
IsNotStart _ = Unit

-- Any number of steps, none of which starts the elevator.
pub data RunOff (s : System) : System → Type 0 where
  stay : RunOff s s
  go : {t u : System} (run : RunOff s t) (st : Step t u) → IsNotStart st → RunOff s u

RunOff-Reach : {s t : System} → RunOff s t → Reach s → Reach t
RunOff-Reach stay r = r
RunOff-Reach (go run st _) r = next (RunOff-Reach run r) st

Step-off :
    {s t : System} (st : Step s t)
    → IsNotStart st
    → Reach s
    → s.globals.started ≡ 0
    → t.globals.started ≡ 0
Step-off {s} (schedule a {pc} {h} e) n r z =
    scheduler_step-keeps StaysOff StaysOff-IsPiecewise a s.pc pc s.globals h (Reach-Inv r) e z
Step-off start n r z = absurd n
Step-off (request _ _ _ _ _) n r z = z
Step-off {s} (stop {h} e) n r z = stop_entry-off s.globals z h e
Step-off {s} (requested locked allocated p before after {h} q e) n r z =
    request_section-off s.globals z locked allocated p h e
Step-off {s} (stopped locked before after {h} q e) n r z = stop_section-off s.globals z locked h e

RunOff-off : {s t : System} → RunOff s t → Reach s → s.globals.started ≡ 0 → t.globals.started ≡ 0
RunOff-off stay r z = z
RunOff-off (go run st n) r z = Step-off st n (RunOff-Reach run r) (RunOff-off run r z)

-- From a reachable state in which the elevator is not started, after any run of the threads in
-- which nobody starts it, every request with int arguments, in range or not, is refused with 1
-- and changes nothing.
pub RunOff-refuses :
    {s t : System} (locked allocated : Bool) (p : Passenger)
    → Reach s
    → s.globals.started ≡ 0
    → RunOff s t
    → IsInts p
    → issue locked allocated p t.globals ≡ some (1, t.globals)
RunOff-refuses {s} {t} locked allocated p r z run n =
    issue_refuses locked allocated p t.globals n (inl (RunOff-off run r z))
