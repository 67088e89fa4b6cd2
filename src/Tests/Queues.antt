-- ===== src/Tests/Queues.antt =====
-- A run from a call until the passenger is aboard.
use mathlib.Mathlib.Data.Multiset.Defs.{of_list}
use mathlib.Mathlib.Data.Multiset.AddSub.{add}
use kernal_elevator.Base.{
  ◌+◌, ◌%◌, ◌^◌, ℕ, ◌≡◌, refl, true, some, List, [], ◌∷◌, ◌++◌, get_elem?, incr, decr, slt, sle,
}
use kernal_elevator.Elevator.State.{Passenger, with_mutex, free_list, free_all}
use kernal_elevator.Elevator.Calls.{add_waiting, request_body, request_section}
use kernal_elevator.Elevator.Boarding.{
  unload_each, unload_loop, unload_body, disinfect, unload_passengers, board, load_one, load_each,
  load_loop, after_loading, load_body, load_passengers,
}
use kernal_elevator.Elevator.Boarding.Order.{of_type}
use kernal_elevator.Elevator.Scheduler.{
  top, unloading, boarding, pausing, has_work, load_if_room, scheduler_step,
}
use kernal_elevator.System.Defs.{requesting, schedule, requested, stay, go}
use kernal_elevator.System.Ledger.{everyone}
use kernal_elevator.System.Accounts.{Run-balance}
use kernal_elevator.Elevator.Boarding.Spec.{arrivals}
use kernal_elevator.System.FirstCome.{first_come}
use kernal_elevator.Tests.States.{human, willing, running, called, riding}
use kernal_elevator.Tests.Threads.{at_run, asked-Reach}

first_come_example :
    (after : List Passenger) × (get_elem? riding.waiting_list 0 ≡ some after)
    × ((k : ℕ) → of_type k (human ∷ []) ≡ of_type k (human ∷ []) ++ of_type k after)
unfolding scheduler_step load_if_room load_passengers load_body load_loop load_each load_one board
    after_loading with_mutex slt sle incr decr has_work unload_passengers unload_body unload_loop
    unload_each disinfect free_list free_all request_section request_body add_waiting
first_come_example =
    first_come {s = at_run top (requesting human ∷ []) running} {t = at_run (pausing 0 1) [] riding}
      (go {t = at_run (boarding 0) [] called}
        (go {t = at_run unloading [] called}
          (go {t = at_run top [] called}
            (go stay (requested true true human [] [] {h = called} refl refl))
            (schedule willing {pc = unloading} {h = called} refl))
          (schedule willing {pc = boarding 0} {h = called} refl))
        (schedule willing {pc = pausing 0 1} {h = riding} refl))
      0 [] asked-Reach refl

Run-balance_example :
    (add (of_list (human ∷ [])) (everyone running)
      ≡ add (of_list []) (add (of_list []) (everyone riding)))
    × (riding.serviced ≡ (running.serviced + 0) % 2 ^ 32)
unfolding scheduler_step load_if_room load_passengers load_body load_loop load_each load_one board
    after_loading with_mutex slt sle incr decr has_work unload_passengers unload_body unload_loop
    unload_each disinfect free_list free_all request_section request_body add_waiting arrivals
Run-balance_example =
    Run-balance {s = at_run top (requesting human ∷ []) running}
      {t = at_run (pausing 0 1) [] riding}
      (go {t = at_run (boarding 0) [] called}
        (go {t = at_run unloading [] called}
          (go {t = at_run top [] called}
            (go stay (requested true true human [] [] {h = called} refl refl))
            (schedule willing {pc = unloading} {h = called} refl))
          (schedule willing {pc = boarding 0} {h = called} refl))
        (schedule willing {pc = pausing 0 1} {h = riding} refl))
      asked-Reach
