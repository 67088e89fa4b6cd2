-- ===== src/System/Rides.antt =====
-- part3/elevator.c: whoever is aboard, over the pieces of all threads.
use mathlib.Core.List.{Memᴰ}
use mathlib.Core.List.Memᴰ
use kernal_elevator.Base.{
  ℕ, ◌≤◌, ◌≡◌, ◌≢◌, sym, ap, subst, ◌∙◌, inl, inr, Bool, true, false, some, some_unique,
}
use kernal_elevator.Elevator.State.{Passenger, Globals}
use kernal_elevator.Elevator.Queues.{IsRider}
use kernal_elevator.Elevator.Calls.{start_elevator, stop_section}
use kernal_elevator.Elevator.Boarding.{unload_passengers, load_passengers}
use kernal_elevator.Elevator.Scheduler.{
  Answers, Pc, top, unloading, boarding, pausing, deciding, moving, exited, load_if_room,
}
use kernal_elevator.Elevator.Keeps.{
  holdings, start_elevator-holdings, stop_entry-holdings, unlocked_unload-holdings,
  unlocked_stop-holdings, unlocked_load-holdings,
}
use kernal_elevator.Elevator.Invariant.Defs.{Inv}
use kernal_elevator.Elevator.Invariant.Boarding.{unload_passengers_lem}
use kernal_elevator.Elevator.Invariant.Loading.{
  boarding as new_aboard, queue_here, load_passengers_lem,
}
use kernal_elevator.Elevator.Contract.Loading.{unloaded_at-fields, unload_rules}
use kernal_elevator.Elevator.Contract.Queueing.{request_section-cases}
use kernal_elevator.Elevator.Service.Ride.{
  Aboard, has_work_aboard, must_move_aboard, mem-riders, All-mem,
}
use kernal_elevator.Elevator.Service.Leave.{not-mem_of_All}
use kernal_elevator.System.Defs.{
  System, Step, schedule, start, request, stop, requested, stopped, Reach, Run,
}
use kernal_elevator.System.Reach.{Reach-Inv, Reach-IsRequest}
use kernal_elevator.System.Pieces.{load_if_room-cases}
use kernal_elevator.System.Way.{IsAt, IsPursuit, IsClear}
use kernal_elevator.System.Liveness.{
  Sometime, Always, ticks, IsCall, Grants, IsCarried, serves_within,
}

-- The scheduler is not told to stop and gets the mutex to unload.
abbrev CanUnload : Answers → Globals → Type 0
CanUnload a g = (a.should_stop ≡ false) × (a.unload_locked ≡ true)

-- No stop takes effect.
abbrev pub CarriesOn : (s t : System) → Step s t → Type 0
CarriesOn s t (schedule a _) = CanUnload a s.globals
CarriesOn s t (stopped locked _ _ _ _) = locked ≡ false
CarriesOn s t _ = Unit

abbrev Anything : Globals → Type 0
Anything g = Unit

module _ (p : Passenger) where
  abbrev pub HasLeft : Globals → Type 0
  HasLeft g = ¬ Memᴰ p g.onboard

  Aboard-still : (g h : Globals) → holdings h ≡ holdings g → Aboard p g → Aboard p h
  Aboard-still g h e m = subst (Memᴰ p) (sym (ap (λ x. x.0) e)) m

  Aboard-past :
      (locked : Bool) (g h : Globals) (n : ℕ)
      → Inv g
      → Aboard p g
      → g.current_floor ≢ p.destination_floor
      → unload_passengers locked g ≡ some (n, h)
      → Aboard p h × Unit {0}
  Aboard-past true g h n v m ne e =
      let (on, _, _, _, _) = unloaded_at-fields g in
      (
        subst (λ o. Aboard p o.1) (some_unique (unload_passengers_lem g v) e)
            (subst (Memᴰ p) (sym on) (mem-riders g.current_floor g.onboard (λ d. ne (sym d)) m)),
        tt,
      )
  Aboard-past false g h n v m ne e = (Aboard-still g h (unlocked_unload-holdings g h n e) m, tt)

  Aboard-loading :
      (locked : Bool) (g h : Globals) (n : ℕ)
      → Inv g
      → Aboard p g
      → load_passengers locked g ≡ some (n, h)
      → Aboard p h
  Aboard-loading true g h n v m e =
      let (i, queue, at, q) = queue_here g v in
      subst (λ o. Aboard p o.1) (some_unique (load_passengers_lem g i queue v at q) e)
        (Memᴰ.append_left (new_aboard g i queue) m)
  Aboard-loading false g h n v m e = Aboard-still g h (unlocked_load-holdings g h n e) m

  Aboard-boarding :
      (locked : Bool) (g h : Globals) (n : ℕ)
      → Inv g
      → Aboard p g
      → Unit {0}
      → load_if_room locked g ≡ some (n, h)
      → Aboard p h
  Aboard-boarding locked g h n v m _ e = elim (load_if_room-cases locked g) [
    | inl f ↦ Aboard-loading locked g h n v m (sym f ∙ e)
    | inr f ↦ subst (λ o. Aboard p o.1) (some_unique f e) m
  ]

  leaves_at :
      (a : Answers) (g h : Globals) (n : ℕ)
      → Inv g
      → CanUnload a g
      → Aboard p g
      → IsAt p.destination_floor g
      → unload_passengers a.unload_locked g ≡ some (n, h)
      → HasLeft h
  leaves_at a g h n v (_, l) m at e =
      let (k, j, f, u) = unload_rules g v in
      subst (λ o. HasLeft o.1) (some_unique f (ap (λ b. unload_passengers b g) (sym l) ∙ e))
        (not-mem_of_All g.current_floor j.onboard u.ride_on (sym at))

  pursuit : IsPursuit p.destination_floor CanUnload (Aboard p) Anything (λ _. HasLeft)
  pursuit = record {
    awake = λ a g ok. ok.0;
    same = Aboard-still;
    works = λ a g v ok m. has_work_aboard g m;
    must = λ a g v ok m. must_move_aboard g v m;
    passes = Aboard-past;
    serves = leaves_at;
    boards = Aboard-boarding;
  }

  Aboard-calls :
      (s t : System) (st : Step s t)
      → Reach s
      → CarriesOn s t st
      → IsCall st
      → Aboard p s.globals
      → Aboard p t.globals
  Aboard-calls s t (schedule _ _) r o c m = absurd c
  Aboard-calls s t start r o c m =
      Aboard-still s.globals (start_elevator s.globals).1 (start_elevator-holdings s.globals) m
  Aboard-calls s t (request _ _ _ _ _) r o c m = m
  Aboard-calls s t (stop {h} e) r o c m =
      Aboard-still s.globals h (stop_entry-holdings s.globals h e) m
  Aboard-calls s t (requested locked allocated q before after {h} w e) r o c m =
      elim (request_section-cases locked allocated q s.globals h (Reach-Inv r)
        (Reach-IsRequest r before after q w) e) [
          | inl k ↦ Aboard-still s.globals h k m
          | inr j ↦ subst (Aboard p) (sym j.after) m
        ]
  Aboard-calls s t (stopped locked before after {h} w e) r o c m =
      Aboard-still s.globals h
        (unlocked_stop-holdings s.globals h (ap (λ b. stop_section b s.globals) (sym o) ∙ e)) m

  can_unload : (s t : System) (st : Step s t) → CarriesOn s t st → Grants CanUnload st
  can_unload s t (schedule a _) o = o
  can_unload s t start o = tt
  can_unload s t (request _ _ _ _ _) o = tt
  can_unload s t (stop _) o = tt
  can_unload s t (requested _ _ _ _ _ _ _) o = tt
  can_unload s t (stopped _ _ _ _ _) o = tt

  carried : IsCarried CanUnload (Aboard p) Anything CarriesOn
  carried = record { grants = can_unload; calls = Aboard-calls; clear = λ g h e z. tt }

  anywhere :
      (pc : Pc) (g : Globals)
      → IsClear p.destination_floor CanUnload (Aboard p) Anything (λ _. HasLeft) pc g
  anywhere (boarding _) g = tt
  anywhere top g = tt
  anywhere unloading g = tt
  anywhere (pausing _ _) g = tt
  anywhere deciding g = tt
  anywhere moving g = tt
  anywhere exited g = tt

-- In every run of the threads from a reachable state in which the scheduler has not exited, is
-- not told to stop and gets the mutex in `unloadPassengers`, and in which no stop gets the
-- mutex, every passenger who is aboard at the beginning has got off at some time, if the
-- scheduler takes at least 108 pieces of its loop. Requests, starts and the first half of a stop
-- may come between any two of them, and `loadPassengers` may be interrupted.
pub gets_off :
    {s t : System} (run : Run s t) (p : Passenger)
    → Reach s
    → s.pc ≢ exited
    → Memᴰ p s.globals.onboard
    → Always CarriesOn run
    → 108 ≤ ticks run
    → Sometime (λ u. HasLeft p u.globals) run
gets_off {s} run p r awake m o enough =
    let rider = All-mem IsRider s.globals.onboard (Reach-Inv r).cabin.riders m in
    serves_within p.destination_floor CanUnload (Aboard p) Anything (λ _. HasLeft p) CarriesOn
      (pursuit p) (carried p) rider.above rider.below run r o awake m (anywhere p s.pc s.globals)
      enough
