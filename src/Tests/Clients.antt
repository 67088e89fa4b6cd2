-- ===== src/Tests/Clients.antt =====
-- The two programs on concrete inputs.
use kernal_elevator.Base.{codes, true, ◌≡◌, refl, some, [], ◌∷◌, arith}
use kernal_elevator.Elevator.State.{Globals}
use kernal_elevator.Elevator.Contract.Requests.{Accepted}
use kernal_elevator.Syscall.Entry.{all_stubs}
use kernal_elevator.User.{Request, rnd, choose_dest, choose_request, producer}
use kernal_elevator.User.Programs.{issue_text, producer_main, consumer_main}
use kernal_elevator.User.Sessions.{granted, passenger, producer_joins_queue}
use kernal_elevator.User.Outcomes.{Consumed, consumer_outcomes}
use kernal_elevator.Tests.States.{running, running-Inv}

-- `rand` gives 0, 0 and 2.
one_human_asks :
    producer 1 (0 ∷ 0 ∷ 2 ∷ []) ≡ some (0, some (record { type = 0; start = 1; dest = 3 }))
unfolding producer choose_request choose_dest rnd
one_human_asks = refl

abbrev asked : Request
asked = record { type = 0; start = 1; dest = 3 }

producer_joins_queue_example :
    (h : Globals) × (producer_main (all_stubs true) granted 1 (0 ∷ 0 ∷ 2 ∷ []) running
      ≡ some (record { status = 0; output = issue_text asked 0; globals = h }))
    × Accepted (passenger asked) running h
producer_joins_queue_example =
    producer_joins_queue (0 ∷ 0 ∷ 2 ∷ []) 0 asked running one_human_asks running-Inv (omega arith)
      refl

consumer_outcomes_example :
    Consumed granted
      (codes "--stop" ∷ [])
      running
      (consumer_main (all_stubs true) granted (codes "--stop" ∷ []) running)
consumer_outcomes_example = consumer_outcomes granted (codes "--stop" ∷ []) running
