-- ===== src/Tests/Infected.antt =====
-- A zombie is aboard when the elevator is stopped.
use kernal_elevator.Base.{◌≡◌, ◌≢◌, refl, true, false, [], ◌∷◌, arith, incr, decr, slt, sle}
use kernal_elevator.Elevator.State.{Passenger, Globals, with_mutex, free_list, free_all}
use kernal_elevator.Elevator.Calls.{
  start_elevator, request_refused, request_body, request_section, add_waiting, stop_entry,
}
use kernal_elevator.Elevator.Boarding.{
  unload_each, unload_loop, unload_body, disinfect, unload_passengers, board, load_one, load_each,
  load_loop, after_loading, load_body, load_passengers,
}
use kernal_elevator.Elevator.Boarding.Order.{of_type}
use kernal_elevator.Elevator.Contract.Stops.{emptied, stop_section_lem}
use kernal_elevator.Elevator.Scheduler.{
  top, boarding, pausing, has_work, load_if_room, scheduler_step,
}
use kernal_elevator.Elevator.Invariant.Calls.{queued_up, allocated_under_lock}
use kernal_elevator.System.Defs.{
  Reach, next, schedule, request, requested, requesting, stop, stopping, start, stay, go,
}
use kernal_elevator.System.Barred.{stop_bars_humans}
use kernal_elevator.Tests.States.{willing, running}
use kernal_elevator.Tests.Threads.{at_run, started-Reach}

abbrev zombie : Passenger
zombie = record { type = 1; start_floor = 1; destination_floor = 3 }

abbrev sought : Globals
sought = record (queued_up 0 [] zombie (allocated_under_lock running)) { mutex = false }

abbrev infected : Globals
infected = record running {
  elevator = record running.elevator { onboard = zombie ∷ []; loads = 1; status = 1 };
  live = 1;
}

abbrev closing : Globals
closing = record infected { elevator = record infected.elevator { started = 0; deactiving = 1 } }

seeking-Reach : Reach (at_run top (requesting zombie ∷ []) running)
unfolding request_refused slt
seeking-Reach = next started-Reach (request zombie (omega arith) (omega arith) (omega arith) refl)

sought-Reach : Reach (at_run top [] sought)
unfolding request_section request_body add_waiting with_mutex slt incr decr
sought-Reach = next seeking-Reach (requested true true zombie [] [] refl refl)

visited-Reach : Reach (at_run (boarding 0) [] sought)
unfolding scheduler_step has_work unload_passengers unload_body unload_loop unload_each disinfect
    free_list free_all with_mutex incr
visited-Reach = next (next sought-Reach (schedule willing refl)) (schedule willing refl)

infected-Reach : Reach (at_run (pausing 0 1) [] infected)
unfolding scheduler_step load_if_room load_passengers load_body load_loop load_each load_one board
    after_loading with_mutex slt sle incr decr
infected-Reach = next visited-Reach (schedule willing refl)

closing-Reach : Reach (at_run (pausing 0 1) (stopping ∷ []) closing)
unfolding stop_entry
closing-Reach = next infected-Reach (stop refl)

-- And then it is started again.
stop_bars_humans_example : ((start_elevator (emptied closing)).1.status ≢ 0) × (of_type 0 [] ≡ [])
unfolding start_elevator
stop_bars_humans_example =
    stop_bars_humans {s = at_run (pausing 0 1) (stopping ∷ []) closing} [] [] 0 closing-Reach refl
      (stop_section_lem closing) (omega arith) (go stay start)
