-- ===== src/System/Places.antt =====
-- part3/elevator.c: `loads` after a stop, over everything that the threads do later.
use kernal_elevator.Base.{
  ℕ, ◌+◌, ◌≤◌, ◌≡◌, sym, ap, subst, Bool, true, false, some, some_unique, List, ◌∷◌, ◌++◌, arith,
  length, length-append, length-Merge,
}
use kernal_elevator.Elevator.State.{Passenger, Globals, capacity, with_mutex}
use kernal_elevator.Elevator.Calls.{
  start_elevator, request_body, request_section, stop_section, add_waiting,
}
use kernal_elevator.Elevator.Boarding.{unload_passengers, load_passengers}
use kernal_elevator.Elevator.Motion.{move_elevator}
use kernal_elevator.Elevator.Scheduler.{rest_idle, pause, go_offline, set_off}
use kernal_elevator.Elevator.Invariant.Defs.{Inv}
use kernal_elevator.Elevator.Invariant.Loading.{queue_here}
use kernal_elevator.Elevator.Contract.Stops.{stop_section_lem}
use kernal_elevator.Elevator.Contract.Loading.{unload_rules, load_rules}
use kernal_elevator.System.Defs.{System, Pending, stopping, stopped, Reach, next, Run}
use kernal_elevator.Elevator.Keeps.{
  holdings, rest_idle-holdings, pause-holdings, go_offline-holdings, set_off-holdings,
  move_elevator-holdings, start_elevator-holdings, stop_entry-holdings, unlocked_unload-holdings,
  unlocked_stop-holdings, unlocked_load-holdings,
}
use kernal_elevator.System.Reach.{Reach-Inv, Run-Reach}
use kernal_elevator.System.Pieces.{IsStepwise, Run-keeps}

-- `loads` counts so many places more than there are passengers aboard.
abbrev pub IsLost : ℕ → Globals → Type 0
IsLost k g = k + length g.onboard ≤ g.loads

-- The part of the state that this concerns.
abbrev pub cabin : Globals → List Passenger × ℕ
cabin g = (g.onboard, g.loads)

IsLost-keeps : (k : ℕ) (g h : Globals) → IsLost k g → cabin h ≡ cabin g → IsLost k h
IsLost-keeps k g h l e = subst (λ c. k + length c.0 ≤ c.1) (sym e) l

request_section-cabin :
    (g : Globals) (locked allocated : Bool) (p : Passenger) (h : Globals)
    → request_section locked allocated p g ≡ some (tt, h)
    → cabin h ≡ cabin g
unfolding request_section request_body with_mutex add_waiting
request_section-cabin g locked allocated p h e = ground arith

-- What moves nobody, loses no place.
IsLost-holds : (k : ℕ) (g h : Globals) → IsLost k g → holdings h ≡ holdings g → IsLost k h
IsLost-holds k g h l e = IsLost-keeps k g h l (ap (λ x. (x.0, x.1)) e)

stop_section-IsLost :
    (k : ℕ) (locked : Bool) (g h : Globals)
    → stop_section locked g ≡ some (tt, h)
    → IsLost k g
    → IsLost k h
stop_section-IsLost k true g h e l =
    subst (λ o. IsLost k o.1) (some_unique (stop_section_lem g) e) (omega arith)
stop_section-IsLost k false g h e l = IsLost-holds k g h l (unlocked_stop-holdings g h e)

unload-IsLost :
    (k : ℕ) (locked : Bool) (g h : Globals) (n : ℕ)
    → Inv g
    → unload_passengers locked g ≡ some (n, h)
    → IsLost k g
    → IsLost k h
unload-IsLost k true g h n v e l =
    let (m, h', e', u) = unload_rules g v in
    subst (λ o. IsLost k o.1) (some_unique e' e) (omega (arith, length-Merge {0} u.parts))
unload-IsLost k false g h n v e l = IsLost-holds k g h l (unlocked_unload-holdings g h n e)

load-IsLost :
    (k : ℕ) (locked : Bool) (g h : Globals) (n : ℕ)
    → Inv g
    → load_passengers locked g ≡ some (n, h)
    → IsLost k g
    → IsLost k h
load-IsLost k true g h n v e l =
    let (i, queue, at, q) = queue_here g v in
    let (m, h', e', r, _) = load_rules g i queue v at q in
    subst (λ o. IsLost k o.1) (some_unique e' e)
      (omega (arith, ap length r.aboard, length-append {0} g.onboard r.boarded))
load-IsLost k false g h n v e l = IsLost-holds k g h l (unlocked_load-holdings g h n e)

-- Every piece keeps the places lost.
pub IsLost-IsStepwise : (k : ℕ) → IsStepwise (λ g h. IsLost k g → IsLost k h)
IsLost-IsStepwise k = record {
  pieces = record {
    same = λ g l. l;
    rests = λ g l. IsLost-holds k g (rest_idle g) l (rest_idle-holdings g);
    pauses = λ g m n l. IsLost-holds k g (pause m n g) l (pause-holdings g m n);
    retires = λ g l. IsLost-holds k g (go_offline g) l (go_offline-holdings g);
    sets_off = λ g l. IsLost-holds k g (set_off g) l (set_off-holdings g);
    moves = λ g l. IsLost-holds k g (move_elevator g) l (move_elevator-holdings g);
    unloads = unload-IsLost k;
    loads = load-IsLost k;
  };
  starts = λ g l. IsLost-holds k g (start_elevator g).1 l (start_elevator-holdings g);
  stop_enters = λ g h e l. IsLost-holds k g h l (stop_entry-holdings g h e);
  stops = λ locked g h v e l. stop_section-IsLost k locked g h e l;
  requests = λ locked allocated p g h v r e l.
      IsLost-keeps k g h l (request_section-cabin g locked allocated p h e);
}

-- When the section of a stop takes effect under the lock in a reachable state, the places of the
-- passengers who were aboard are lost for good: after any further run of the threads, starting
-- the elevator again included, the number of passengers aboard and the number of those who were
-- put out together are at most the capacity.
pub stop_loses_places :
    {s t : System} (before after : List Pending) {h : Globals}
    → Reach s
    → s.pending ≡ before ++ stopping ∷ after
    → stop_section true s.globals ≡ some (tt, h)
    → Run (record s { globals = h; pending = before ++ after }) t
    → length t.globals.onboard + length s.globals.onboard ≤ capacity
stop_loses_places {s} {t} before after {h} r q e run =
    let v = Reach-Inv r in
    let w = Reach-Inv (Run-Reach run r') in
    let l =
      Run-keeps (IsLost (length s.globals.onboard)) (IsLost-IsStepwise (length s.globals.onboard))
        run r' lost in
    omega arith
  where
    r' : Reach (record s { globals = h; pending = before ++ after })
    r' = next r (stopped true before after q e)

    lost : IsLost (length s.globals.onboard) h
    lost =
        let v = Reach-Inv r in
        subst (λ o. IsLost (length s.globals.onboard) o.1)
          (some_unique (stop_section_lem s.globals) e) (omega arith)
