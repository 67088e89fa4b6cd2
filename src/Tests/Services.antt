-- ===== src/Tests/Services.antt =====
-- The liveness of the threads together, on runs of the scheduler.
use mathlib.Core.List.Memᴰ
use kernal_elevator.Base.{
  ◌++◌, ◌≡◌, List, true, some, get_elem?, incr, decr, ◌≢◌, refl, [], ◌∷◌, arith,
}
use kernal_elevator.Elevator.Scheduler.{top, pausing, exited}
use kernal_elevator.Elevator.State.{Passenger, with_mutex}
use kernal_elevator.Elevator.Calls.{request_section, request_body, add_waiting}
use kernal_elevator.System.Defs.{requesting}
use kernal_elevator.System.Drains.{drains}
use kernal_elevator.System.Answered.{answers}
use kernal_elevator.System.Liveness.{Sometime}
use kernal_elevator.System.Rides.{HasLeft, gets_off}
use kernal_elevator.System.Visits.{IsVisited, visits}
use kernal_elevator.System.Scheduled.{Alone, alone}
use kernal_elevator.Tests.States.{human, running, called, riding}
use kernal_elevator.Tests.Threads.{at_run, asked-Reach, called-Reach, taken-Reach}

pausing_runs : pausing 0 1 ≢ exited
pausing_runs e = cc

top_runs : top ≢ exited
top_runs e = cc

abbrev ride : Alone (at_run (pausing 0 1) [] riding) 108
ride = alone 108 (at_run (pausing 0 1) [] riding) taken-Reach (omega arith)

gets_off_example : Sometime (λ u. HasLeft human u.globals) ride.run
gets_off_example =
    gets_off ride.run human taken-Reach pausing_runs (Memᴰ.head refl) ride.carries_on
      (omega (arith, ride.pieces))

abbrev wait : Alone (at_run top [] called) 108
wait = alone 108 (at_run top [] called) called-Reach (omega arith)

visits_example : Sometime (λ u. IsVisited 0 (human ∷ []) u.pc u.globals) wait.run
visits_example =
    visits wait.run 0 (human ∷ []) called-Reach top_runs refl (omega arith) wait.goes_on
      (omega (arith, wait.pieces))

asked_for : request_section true true human running ≡ some (tt, called)
unfolding request_section request_body add_waiting with_mutex incr decr
asked_for = refl

answers_example :
    (queue : List Passenger) × (get_elem? running.waiting_list 0 ≡ some queue)
    × Sometime (λ u. IsVisited 0 (queue ++ human ∷ []) u.pc u.globals) wait.run
answers_example =
    answers {s = at_run top (requesting human ∷ []) running} [] [] human asked-Reach refl refl
      asked_for top_runs wait.run wait.goes_on (omega (arith, wait.pieces))

abbrev long_wait : Alone (at_run top [] called) 217
long_wait = alone 217 (at_run top [] called) called-Reach (omega arith)

drains_example : Sometime (λ u. u.globals.live ≡ 0) long_wait.run
drains_example =
    drains long_wait.run called-Reach top_runs refl (omega arith) long_wait.undisturbed
      (omega (arith, long_wait.pieces))
