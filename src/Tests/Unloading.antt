-- ===== src/Tests/Unloading.antt =====
-- Loading and unloading the module while calls are made.
use kernal_elevator.Base.{◌≡◌, refl, [], ◌∷◌, some, arith, true, false}
use kernal_elevator.Elevator.State.{Globals}
use kernal_elevator.Elevator.Calls.{request_section}
use kernal_elevator.Elevator.Setup.{elevator_exit}
use kernal_elevator.Elevator.Scheduler.{top, pausing, exited}
use kernal_elevator.System.Defs.{requesting}
use kernal_elevator.System.Exits.{Told, told, unloads}
use kernal_elevator.System.Locks.{Locks}
use kernal_elevator.System.Late.{late_request_leaks}
use kernal_elevator.Tests.States.{human, running, riding, registered}
use kernal_elevator.Tests.Threads.{at_run, taken-Reach, asked-Reach}

abbrev dismissal : Told (at_run (pausing 0 1) [] riding) 6
dismissal = told 6 (at_run (pausing 0 1) [] riding) taken-Reach

unloads_example :
    (dismissal.after.pc ≡ exited)
    × (h : Globals) × (elevator_exit true dismissal.after.globals registered
        ≡ some (h, record registered { stubs = false; proc_entry = false; thread = false }))
    × (h.live ≡ 0)
unloads_example =
    unloads dismissal.run registered taken-Reach dismissal.told (omega (arith, dismissal.pieces))

late_request_leaks_example :
    (h k : Globals) × (elevator_exit true running registered
      ≡ some (h, record registered { stubs = false; proc_entry = false; thread = false }))
    × (request_section true true human h ≡ some (tt, k))
    × (k.live ≡ 1)
late_request_leaks_example =
    late_request_leaks {s = at_run top (requesting human ∷ []) running} [] [] human registered
      asked-Reach refl refl
