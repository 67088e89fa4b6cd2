-- ===== src/Tests/Calls.antt =====
-- The operations of the elevator on concrete states.
use kernal_elevator.Base.{
  ℕ, ◌≤◌, ◌+◌, ◌*◌, replicate, ◌≡◌, true, [], ◌∷◌, some, arith, refl, get_elem?,
}
use kernal_elevator.Elevator.Scheduler.{scheduler, scheduler_round}
use kernal_elevator.Elevator.Service.Pickup.{picks_up_after_stop}
use kernal_elevator.Elevator.Boarding.Spec.{boarders, stayers}
use kernal_elevator.Elevator.Service.Whole.{IsServed, journey}
use kernal_elevator.Elevator.State.{Globals}
use kernal_elevator.Elevator.Boarding.{unload_passengers, load_passengers}
use kernal_elevator.Elevator.Calls.{stop_elevator}
use kernal_elevator.Elevator.Contract.Loading.{Loaded, Unloaded, load_rules, unload_rules}
use kernal_elevator.Elevator.Contract.Requests.{issue}
use kernal_elevator.Elevator.Contract.Outcomes.{Issued, issue_outcomes, Stopped, stop_outcomes}
use kernal_elevator.Tests.States.{
  human, willing, running, running-Inv, called, called-Inv, human-IsInts,
}

load_rules_example :
    (n : ℕ) × (h : Globals) × (load_passengers true called ≡ some (n, h))
    × (l : Loaded called h (human ∷ [])) × (get_elem? h.waiting_list 0 ≡ some l.stayed)
load_rules_example = load_rules called 0 (human ∷ []) called-Inv refl refl

unload_rules_example :
    (n : ℕ) × (h : Globals) × (unload_passengers true called ≡ some (n, h)) × Unloaded called h
unload_rules_example = unload_rules called called-Inv

stop_outcomes_example : Stopped true called (stop_elevator true called)
stop_outcomes_example = stop_outcomes true called

issue_outcomes_example : Issued true true human running (issue true true human running)
issue_outcomes_example = issue_outcomes human running running-Inv human-IsInts true true

journey_example :
    (turns : ℕ) × (b : Globals) × (h : Globals) × (turns + 1 ≤ 36)
    × (scheduler (replicate turns willing) called ≡ some b)
    × (scheduler (replicate (turns + 1) willing) called ≡ some h)
    × IsServed human 0 b h
    × (h.clock ≤ 0 + 3 * (turns + 1))
journey_example =
    journey called 0 human called-Inv (omega arith)
      (record { empty = refl; no_load = refl; here = refl; alone = refl; served = refl })

picks_up_after_stop_example :
    (h : Globals) × (k : Globals) × (stop_elevator true called ≡ some (0, h))
    × (h.started ≡ 0)
    × (h.deactiving ≡ 1)
    × (h.onboard ≡ [])
    × (scheduler_round willing h ≡ some k)
    × (k.onboard ≡ human ∷ [])
    × (get_elem? k.waiting_list 0 ≡ some [])
unfolding boarders stayers
picks_up_after_stop_example =
    picks_up_after_stop called 0 (human ∷ []) called-Inv (omega arith) (omega arith) refl
      (omega arith) refl refl (omega arith)
