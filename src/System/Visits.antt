-- ===== src/System/Visits.antt =====
-- part3/elevator.c: the waiting lists, over the pieces of all threads.
use kernal_elevator.Base.{
  ℕ, suc, ◌^◌, ◌≤◌, ◌<◌, ◌≡◌, ◌≢◌, sym, ap, ◌∙◌, ◌⊎◌, inl, inr, false, some, List, [], ◌++◌,
  append-nil, length, length-append, get_elem?, arith,
}
use native.Mathlib.Decide.{ℕ_discrete}
use kernal_elevator.Elevator.State.{Passenger, Globals}
use kernal_elevator.Elevator.Calls.{start_elevator}
use kernal_elevator.Elevator.Scheduler.{
  Answers, Pc, top, unloading, boarding, pausing, deciding, moving, exited,
}
use kernal_elevator.Elevator.Keeps.{start_elevator-holdings, stop_entry-holdings}
use kernal_elevator.Elevator.Invariant.Motion.{Position}
use kernal_elevator.Elevator.Contract.Queueing.{request_section-cases}
use kernal_elevator.Elevator.Service.Ride.{Queued, has_work-Queued, must_move-Queued}
use kernal_elevator.System.Defs.{
  System, Step, schedule, start, request, stop, requested, stopped, Reach, Run,
}
use kernal_elevator.System.Reach.{Reach-Inv, Reach-IsRequest}
use kernal_elevator.System.Way.{IsAt, IsPursuit, IsClear}
use kernal_elevator.System.Liveness.{
  Sometime, Sometime-start, Always, ticks, IsCall, Grants, IsCarried, serves_within,
}
use kernal_elevator.System.Waiting.{
  Waiting, IsElsewhere, lt_of_get, Waiting-still, Waiting-past, Waiting-boarding, Waiting-joined,
  Waiting-stopped, same_floor,
}

-- The scheduler is not told to stop, and there are fewer than 2 ^ 32 passengers.
abbrev IsUntold : Answers → Globals → Type 0
IsUntold a g = (a.should_stop ≡ false) × (g.live < 2 ^ 32)

abbrev pub GoesOn : (s t : System) → Step s t → Type 0
GoesOn s t (schedule a _) = IsUntold a s.globals
GoesOn s t _ = Unit

module _ (i : ℕ) (queue : List Passenger) where
  abbrev Here : Globals → Type 0
  Here = Waiting i queue

  -- The scheduler is about to load at the floor of the queue.
  abbrev pub IsVisited : Pc → Globals → Type 0
  IsVisited (boarding _) g = IsAt (suc i) g × Here g
  IsVisited _ g = ⊥

  module _ (somebody : 0 < length queue) where
    as-Queued :
        (a : Answers) (g : Globals) → IsUntold a g → (w : Here g) → Queued i (queue ++ w.behind) g
    as-Queued a g ok w = record { few = ok.1; here = w.here }

    some_one : (g : Globals) (w : Here g) → 0 < length (queue ++ w.behind)
    some_one g w = omega (arith, length-append {0} queue w.behind)

    visit : IsPursuit (suc i) IsUntold Here (IsElsewhere i queue) IsVisited
    visit = record {
      awake = λ a g ok. ok.0;
      same = Waiting-still i queue;
      works = λ a g v ok w.
          has_work-Queued i (queue ++ w.behind) (some_one g w) g v (as-Queued a g ok w);
      must = λ a g v ok w.
          must_move-Queued i (queue ++ w.behind) (some_one g w) g v (as-Queued a g ok w);
      passes = λ locked g h n v w ne e. (
        Waiting-past i queue locked g h n v w e,
        λ at. ne (sym (same_floor i queue locked g h n e) ∙ at),
      );
      serves = λ a g h n v ok w at e. (
        same_floor i queue a.unload_locked g h n e ∙ at,
        Waiting-past i queue a.unload_locked g h n v w e,
      );
      boards = Waiting-boarding i queue;
    }

  Waiting-calls :
      (s t : System) (st : Step s t)
      → Reach s
      → GoesOn s t st
      → IsCall st
      → Here s.globals
      → Here t.globals
  Waiting-calls s t (schedule _ _) r o c w = absurd c
  Waiting-calls s t start r o c w =
      Waiting-still i queue s.globals (start_elevator s.globals).1
        (start_elevator-holdings s.globals) w
  Waiting-calls s t (request _ _ _ _ _) r o c w = w
  Waiting-calls s t (stop {h} e) r o c w =
      Waiting-still i queue s.globals h (stop_entry-holdings s.globals h e) w
  Waiting-calls s t (requested locked allocated q before after {h} x e) r o c w =
      elim (request_section-cases locked allocated q s.globals h (Reach-Inv r)
        (Reach-IsRequest r before after q x) e) [
          | inl k ↦ Waiting-still i queue s.globals h k w
          | inr j ↦ Waiting-joined i queue q s.globals h (Reach-Inv r) j w
        ]
  Waiting-calls s t (stopped locked before after {h} x e) r o c w =
      Waiting-stopped i queue locked s.globals h e w

  untold : (s t : System) (st : Step s t) → GoesOn s t st → Grants IsUntold st
  untold s t (schedule a _) o = o
  untold s t start o = tt
  untold s t (request _ _ _ _ _) o = tt
  untold s t (stop _) o = tt
  untold s t (requested _ _ _ _ _ _ _) o = tt
  untold s t (stopped _ _ _ _ _) o = tt

  waits_on : IsCarried IsUntold Here (IsElsewhere i queue) GoesOn
  waits_on = record {
    grants = untold;
    calls = Waiting-calls;
    clear = λ g h e ne at. ne (ap (λ (p : Position). p.current) (sym e) ∙ at);
  }

-- Either the thread is about to load at the floor already, or it is not.
arrival_cases :
    (i : ℕ) (queue : List Passenger) (pc : Pc) (g : Globals)
    → Waiting i queue g
    → IsVisited i queue pc g
      ⊎ IsClear (suc i) IsUntold (Waiting i queue) (IsElsewhere i queue) (IsVisited i queue) pc g
arrival_cases i queue (boarding _) g w = elim (ℕ_discrete g.current_floor (suc i)) [
  | yes e ↦ inl (e, w)
  | no ne ↦ inr ne
]
arrival_cases i queue top g w = inr tt
arrival_cases i queue unloading g w = inr tt
arrival_cases i queue (pausing _ _) g w = inr tt
arrival_cases i queue deciding g w = inr tt
arrival_cases i queue moving g w = inr tt
arrival_cases i queue exited g w = inr tt

-- In every run of the threads from a reachable state in which the scheduler has not exited, is
-- not told to stop, and has fewer than 2 ^ 32 live passengers before each piece of its loop,
-- every queue that is not empty at the beginning is visited, if the scheduler takes at least 108
-- pieces: at some time it is about to load at the floor of the queue, which stands there in its
-- order with those behind it who have come since. Stops, requests and starts may come between
-- any two pieces, and any call of the scheduler for the mutex may be interrupted.
pub visits :
    {s t : System} (run : Run s t) (i : ℕ) (queue : List Passenger)
    → Reach s
    → s.pc ≢ exited
    → get_elem? s.globals.waiting_list i ≡ some queue
    → 0 < length queue
    → Always GoesOn run
    → 108 ≤ ticks run
    → Sometime (λ u. IsVisited i queue u.pc u.globals) run
visits {s} run i queue r awake q somebody o enough =
    let w : Waiting i queue s.globals = record {
      behind = [];
      here = q ∙ ap some (sym (append-nil queue));
    } in
    let high = lt_of_get s.globals.waiting_list i q in
    elim (arrival_cases i queue s.pc s.globals w) [
      | inl here ↦ Sometime-start (λ u. IsVisited i queue u.pc u.globals) run here
      | inr clear ↦
          serves_within (suc i) IsUntold (Waiting i queue) (IsElsewhere i queue) (IsVisited i queue)
            GoesOn (visit i queue somebody) (waits_on i queue) (omega arith)
            (omega (arith, high, (Reach-Inv r).queued.size)) run r o awake w clear enough
    ]
