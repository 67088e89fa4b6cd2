-- ===== src/System/Ledger.antt =====
-- Who comes to the building of part3/elevator.c, and who goes, read off the steps of the threads.
use mathlib.Mathlib.Data.Multiset.Defs.{Multiset, of_list}
use mathlib.Mathlib.Data.Multiset.AddSub.{add}
use kernal_elevator.Base.{Bool, ◌&&◌, List, [], ◌∷◌, ◌++◌, ◌==◌, if◌then◌else◌}
use kernal_elevator.Elevator.State.{Passenger, Globals}
use kernal_elevator.Elevator.Boarding.Spec.{arrivals}
use kernal_elevator.Elevator.Scheduler.{Answers, Pc, unloading}
use kernal_elevator.System.Defs.{System, Step, schedule, requested, stopped, Run, stay, go}
use kernal_elevator.System.Bags.{everybody}

-- All in the building, in no order.
abbrev pub everyone : Globals → Multiset Passenger
everyone g = add (of_list g.onboard) (everybody g.waiting_list)

-- The passenger of a request whose section gets the lock, if the elevator is not deactivating.
abbrev pub newcomer : Bool → Passenger → Globals → List Passenger
newcomer locked p g = if locked && g.deactiving == 0 then p ∷ [] else []

-- Those aboard for the floor, when the scheduler unloads and gets the lock.
abbrev pub who_arrives : Answers → Pc → Globals → List Passenger
who_arrives a unloading g = if a.unload_locked then arrivals g.current_floor g.onboard else []
who_arrives a _ g = []

-- All aboard, when the section of a stop gets the lock.
abbrev pub put_out : Bool → Globals → List Passenger
put_out locked g = if locked then g.onboard else []

abbrev pub step_came : {s t : System} → Step s t → List Passenger
step_came {s} (requested locked allocated p before after q e) = newcomer locked p s.globals
step_came _ = []

abbrev pub step_arrived : {s t : System} → Step s t → List Passenger
step_arrived {s} (schedule a e) = who_arrives a s.pc s.globals
step_arrived _ = []

abbrev pub step_put_out : {s t : System} → Step s t → List Passenger
step_put_out {s} (stopped locked before after q e) = put_out locked s.globals
step_put_out _ = []

abbrev pub all_came : {s t : System} → Run s t → List Passenger
all_came stay = []
all_came (go run st) = all_came run ++ step_came st

abbrev pub all_arrived : {s t : System} → Run s t → List Passenger
all_arrived stay = []
all_arrived (go run st) = all_arrived run ++ step_arrived st

abbrev pub all_put_out : {s t : System} → Run s t → List Passenger
all_put_out stay = []
all_put_out (go run st) = all_put_out run ++ step_put_out st
