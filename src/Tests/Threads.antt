-- ===== src/Tests/Threads.antt =====
-- The threads of the module on concrete runs.
use kernal_elevator.Base.{
  arith, slt, sle, incr, decr, ◌+◌, ◌≤◌, ◌≡◌, refl, Bool, true, some, List, [], ◌∷◌, ◌++◌, length,
}
use kernal_elevator.Elevator.Scheduler.{
  Answers, Pc, top, boarding, pausing, scheduler_step, has_work, load_if_room,
}
use kernal_elevator.Elevator.Contract.Requests.{issue}
use kernal_elevator.System.Defs.{
  System, Pending, requesting, stopping, start, stop, request, requested, schedule, stopped, Reach,
  here, next, init, stay,
}
use kernal_elevator.System.Refusals as Refusals
use kernal_elevator.System.Refusals.{RunOff-refuses}
use kernal_elevator.Tests.States.{human-IsInts, human, willing, running, called, riding}
use kernal_elevator.Elevator.State.{Passenger, Globals, capacity, with_mutex, free_list, free_all}
use kernal_elevator.Elevator.Calls.{
  start_elevator, stop_entry, request_refused, request_body, add_waiting, request_section,
  stop_section,
}
use kernal_elevator.Elevator.Setup.{setup_elevator}
use kernal_elevator.Elevator.Contract.Stops.{emptied, stop_section_lem}
use kernal_elevator.Elevator.Invariant.Defs.{Inv}
use kernal_elevator.Elevator.Boarding.{
  unload_passengers, unload_body, unload_loop, unload_each, disinfect, load_passengers, load_body,
  load_loop, load_each, load_one, board, after_loading,
}
use kernal_elevator.System.Reach.{Reach-Inv, Reach-no_fault}
use kernal_elevator.System.Places.{stop_loses_places}

Reach-Inv_example : Inv (start_elevator init.globals).1
Reach-Inv_example = Reach-Inv (next here start)

Reach-no_fault_example :
    ((a : Answers) → (r : Pc × Globals) × (scheduler_step a init.pc init.globals ≡ some r))
    × ((locked : Bool) (p : Passenger) (before after : List Pending)
        → init.pending ≡ before ++ requesting p ∷ after
        → (h : Globals) × (request_section locked true p init.globals ≡ some (tt, h)))
    × ((locked : Bool) → (h : Globals) × (stop_section locked init.globals ≡ some (tt, h)))
Reach-no_fault_example = Reach-no_fault here

-- One human calls, the car takes him in on the first floor, and then the elevator is stopped.
abbrev pub at_run : Pc → List Pending → Globals → System
at_run pc pending g = record { globals = g; pc = pc; pending = pending }

abbrev taken : Globals
taken = record riding { live = 1 }

pub started-Reach : Reach (at_run top [] running)
unfolding init setup_elevator start_elevator
started-Reach = next here start

pub asked-Reach : Reach (at_run top (requesting human ∷ []) running)
unfolding request_refused slt
asked-Reach = next started-Reach (request human (omega arith) (omega arith) (omega arith) refl)

pub called-Reach : Reach (at_run top [] called)
unfolding request_section request_body add_waiting with_mutex slt incr decr
called-Reach = next asked-Reach (requested true true human [] [] refl refl)

unloaded-Reach : Reach (at_run (boarding 0) [] called)
unfolding scheduler_step has_work unload_passengers unload_body unload_loop unload_each disinfect
    free_list free_all with_mutex incr
unloaded-Reach = next (next called-Reach (schedule willing refl)) (schedule willing refl)

pub taken-Reach : Reach (at_run (pausing 0 1) [] riding)
unfolding scheduler_step load_if_room load_passengers load_body load_loop load_each load_one board
    after_loading with_mutex slt sle incr decr
taken-Reach = next unloaded-Reach (schedule willing refl)

abbrev stopping_state : Globals
stopping_state = record riding { elevator = record riding.elevator { started = 0; deactiving = 1 } }

stopping-Reach : Reach (at_run (pausing 0 1) (stopping ∷ []) stopping_state)
unfolding stop_entry
stopping-Reach = next taken-Reach (stop refl)

stop_loses_places_example :
    length (emptied stopping_state).onboard + length stopping_state.onboard ≤ capacity
stop_loses_places_example =
    stop_loses_places {s = at_run (pausing 0 1) (stopping ∷ []) stopping_state} [] [] stopping-Reach
      refl (stop_section_lem stopping_state) stay

RunOff-refuses_example :
    issue true true human (emptied stopping_state) ≡ some (1, emptied stopping_state)
RunOff-refuses_example =
    RunOff-refuses {s = at_run (pausing 0 1) (stopping ∷ []) stopping_state} true true human
      stopping-Reach refl
      (Refusals.go Refusals.stay (stopped true [] [] refl (stop_section_lem stopping_state)) tt)
      human-IsInts
