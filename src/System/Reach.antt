-- ===== src/System/Reach.antt =====
-- part3/elevator.c: the invariant along the steps of the threads.
use kernal_elevator.Base.{
  ◌≡◌, refl, subst, some_unique, Bool, true, List, [], ◌∷◌, ◌++◌, some, arith, All,
}
use kernal_elevator.Elevator.State.{Passenger, Globals}
use kernal_elevator.Elevator.Calls.{request_section, stop_section}
use kernal_elevator.Elevator.Setup.{setup_elevator}
use kernal_elevator.Elevator.Scheduler.{Answers, Pc, moving, scheduler_step}
use kernal_elevator.Elevator.Invariant.Defs.{Inv}
use kernal_elevator.Elevator.Invariant.Calls.{
  IsRequest, start_elevator-Inv, request_refused_lem, request_section-Inv, request_section_returns,
}
use kernal_elevator.Elevator.Invariant.Stops.{stop_entry-Inv, stop_section-Inv}
use kernal_elevator.Elevator.Invariant.Car.{
  car, start_elevator-car, stop_entry-car, request_section-car, stop_section-car,
}
use kernal_elevator.Elevator.Invariant.Scheduler.{Knows, scheduler_step-Inv}
use kernal_elevator.System.Defs.{
  System, Pending, requesting, stopping, Step, schedule, start, request, stop, requested, stopped,
  init, Reach, here, next, Run, stay, go,
}

-- A request that waits for the mutex has passed the checks.
abbrev pub IsChecked : Pending → Type 0
IsChecked (requesting p) = IsRequest p
IsChecked stopping = Unit

pub record IsSound (s : System) : Type 0 where
  pub inv : Inv s.globals
  pub knows : Knows s.pc s.globals
  pub checked : All IsChecked s.pending

init-IsSound : IsSound init
unfolding init setup_elevator
init-IsSound = record {
  inv = record {
    track = omega arith;
    cabin = record {
      loads_le = omega arith;
      aboard = omega arith;
      status_le = omega arith;
      clean = λ _. tt;
      riders = tt;
    };
    empty_clean = λ _. refl;
    queued = record { size = refl; counted = refl; waiting = refl; residents = omega arith };
    blocks = refl;
  };
  knows = tt;
  checked = tt;
}

-- What the calls change does not concern the direction.
Knows-keeps : (pc : Pc) (g h : Globals) → Knows pc g → car h ≡ car g → Knows pc h
Knows-keeps moving g h k e = ground arith
Knows-keeps _ g h k e = tt

IsChecked-split :
    (before after : List Pending) (c : Pending)
    → All IsChecked (before ++ c ∷ after)
    → IsChecked c × All IsChecked (before ++ after)
IsChecked-split [] after c h = h
IsChecked-split (b ∷ before) after c (hb, h) =
    let (hc, rest) = IsChecked-split before after c h in (hc, (hb, rest))

Step-IsSound : {s t : System} → Step s t → IsSound s → IsSound t
Step-IsSound {s} (schedule a e) v =
    let (pc', h', e', w, k) = scheduler_step-Inv a s.pc s.globals v.inv v.knows in
    record {
      inv = subst (λ o. Inv o.1) (some_unique e' e) w;
      knows = subst (λ o. Knows o.0 o.1) (some_unique e' e) k;
      checked = v.checked;
    }
Step-IsSound {s} start v = record {
  inv = start_elevator-Inv s.globals v.inv;
  knows = Knows-keeps s.pc s.globals _ v.knows (start_elevator-car s.globals);
  checked = v.checked;
}
Step-IsSound {s} (request p ht hs hd e) v = record {
  inv = v.inv;
  knows = v.knows;
  checked = (((request_refused_lem _ _ _ s.globals hs hd ht).0 e).1, v.checked);
}
Step-IsSound {s} (stop {h} e) v = record {
  inv = stop_entry-Inv s.globals h v.inv e;
  knows = Knows-keeps s.pc s.globals h v.knows (stop_entry-car s.globals h e);
  checked = (tt, v.checked);
}
Step-IsSound {s} (requested locked allocated p before after {h} q e) v = record {
  inv =
      request_section_returns locked allocated p s.globals
        (IsChecked-split before after (requesting p) (subst (All IsChecked) q v.checked)).0 v.inv e;
  knows = Knows-keeps s.pc s.globals h v.knows (request_section-car locked allocated p s.globals e);
  checked = (IsChecked-split before after (requesting p) (subst (All IsChecked) q v.checked)).1;
}
Step-IsSound {s} (stopped locked before after {h} q e) v = record {
  inv =
      let (k, f, w) = stop_section-Inv locked s.globals v.inv in
      subst (λ o. Inv o.1) (some_unique f e) w;
  knows = Knows-keeps s.pc s.globals h v.knows (stop_section-car locked s.globals e);
  checked = (IsChecked-split before after stopping (subst (All IsChecked) q v.checked)).1;
}

Reach-IsSound : {s : System} → Reach s → IsSound s
Reach-IsSound here = init-IsSound
Reach-IsSound (next r st) = Step-IsSound st (Reach-IsSound r)

-- Before it moves, the scheduler has set the direction.
pub Reach-Knows : {s : System} → Reach s → Knows s.pc s.globals
Reach-Knows r = (Reach-IsSound r).knows

-- A call that waits for the mutex has passed its checks.
pub Reach-IsRequest :
    {s : System} (r : Reach s) (before after : List Pending) (p : Passenger)
    → s.pending ≡ before ++ requesting p ∷ after
    → IsRequest p
Reach-IsRequest r before after p q =
    (IsChecked-split before after (requesting p)
      (subst (All IsChecked) q (Reach-IsSound r).checked)).0

pub Run-Reach : {s t : System} → Run s t → Reach s → Reach t
Run-Reach stay r = r
Run-Reach (go run st) r = next (Run-Reach run r) st

-- In every state that the threads of the module can reach, the invariant holds: the car is at a
-- floor and its next floor is a neighbour, `loads` is at most the capacity and at least the
-- number of passengers aboard, a car that is not marked as infected has no zombie, an empty car
-- is not infected, each waiting list holds passengers of its own floor, the counters agree with
-- the lists modulo 2 ^ 32, and the live blocks are those aboard and those waiting.
pub Reach-Inv : {s : System} → Reach s → Inv s.globals
Reach-Inv r = (Reach-IsSound r).inv

-- In every reachable state every thread that can move returns: each piece of the scheduler
-- whatever the kernel answers, the section of each request that waits for the mutex if kmalloc
-- has memory, and the section of a stop.
pub Reach-no_fault :
    {s : System}
    → Reach s
    → ((a : Answers) → (r : Pc × Globals) × (scheduler_step a s.pc s.globals ≡ some r))
      × ((locked : Bool) (p : Passenger) (before after : List Pending)
          → s.pending ≡ before ++ requesting p ∷ after
          → (h : Globals) × (request_section locked true p s.globals ≡ some (tt, h)))
      × ((locked : Bool) → (h : Globals) × (stop_section locked s.globals ≡ some (tt, h)))
Reach-no_fault {s} r =
    let v = Reach-IsSound r in
    (
      λ a. let (pc, h, e, _, _) = scheduler_step-Inv a s.pc s.globals v.inv v.knows in ((pc, h), e),
      λ locked p before after q.
          let valid =
            (IsChecked-split before after (requesting p) (subst (All IsChecked) q v.checked)).0 in
          let (h, e, _) = request_section-Inv locked p s.globals valid v.inv in (h, e),
      λ locked. let (h, e, _) = stop_section-Inv locked s.globals v.inv in (h, e),
    )
