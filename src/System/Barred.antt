-- ===== src/System/Barred.antt =====
-- part3/elevator.c: `status` after a stop of an infected car, over everything that the threads do
-- later.
use kernal_elevator.Base.{
  ℕ, suc, ◌≤◌, ◌<◌, ◌≡◌, ◌≢◌, refl, sym, ap, subst, ◌∙◌, Bool, true, false, some, some_unique, List,
  [], ◌∷◌, ◌++◌, arith, ◌==◌, length, drop-append, inl, inr, Bool-cases, length-Merge,
}
use kernal_elevator.Elevator.State.{Passenger, Globals, with_mutex, free_list, free_all}
use kernal_elevator.Elevator.Calls.{
  start_elevator, request_body, request_section, stop_section, add_waiting,
}
use kernal_elevator.Elevator.Boarding.{disinfect, unload_passengers, load_passengers}
use kernal_elevator.Elevator.Boarding.Spec.{boarders}
use kernal_elevator.Elevator.Boarding.Rules.{infect_all_mono}
use kernal_elevator.Elevator.Boarding.Order.{of_type, of_type-append, none_of_type}
use kernal_elevator.Elevator.Motion.{move_elevator}
use kernal_elevator.Elevator.Scheduler.{rest_idle, pause, go_offline, set_off}
use kernal_elevator.Elevator.Invariant.Defs.{Inv}
use kernal_elevator.Elevator.Invariant.Boarding.{unloaded_at, unload_passengers_lem}
use kernal_elevator.Elevator.Invariant.Loading.{
  boarding, queue_here, loaded_at, load_passengers_lem,
}
use kernal_elevator.Elevator.Contract.Loading.{unload_rules}
use kernal_elevator.Elevator.Contract.Stops.{emptied, stop_section_lem}
use kernal_elevator.Elevator.Keeps.{
  holdings, rest_idle-holdings, pause-holdings, go_offline-holdings, set_off-holdings,
  move_elevator-holdings, start_elevator-holdings, stop_entry-holdings, unlocked_unload-holdings,
  unlocked_stop-holdings, unlocked_load-holdings, rest_idle-status, pause-status, go_offline-status,
  set_off-status, move_elevator-status, start_elevator-status, stop_entry-status,
  unlocked_stop-status, unlocked_load-status,
}
use kernal_elevator.System.Defs.{System, Pending, stopping, stopped, Reach, next, Run, stay, go}
use kernal_elevator.System.Reach.{Reach-Inv, Run-Reach}
use kernal_elevator.System.Pieces.{IsStepwise, Step-keeps, Run-keeps}
use kernal_elevator.System.Places.{IsLost, IsLost-IsStepwise}
use kernal_elevator.System.Lines.{came_aboard, nobody_aboard, all_who_boarded}

human_refused :
    (loads status : ℕ) (ps : List Passenger)
    → status ≢ 0
    → of_type 0 (boarders loads status ps) ≡ []
human_refused loads status ps s =
    none_of_type (record { type = 0; start_floor = 0; destination_floor = 0 }) loads status ps
      (ground arith)

module _ (i : ℕ) where
  -- While a place is lost and the car is infected, it stays infected, and no human comes aboard.
  abbrev Bars : Globals → Globals → Type 0
  Bars g h = IsLost 1 g → g.status ≢ 0 → (h.status ≢ 0) × (of_type 0 (came_aboard i g h) ≡ [])

  Bars-still :
      (g h : Globals) → length h.onboard ≤ length g.onboard → h.status ≡ g.status → Bars g h
  Bars-still g h l e lost s = (λ z. s (sym e ∙ z), rw (nobody_aboard i g h l) refl)

  Bars-holdings : (g h : Globals) → holdings h ≡ holdings g → h.status ≡ g.status → Bars g h
  Bars-holdings g h e = Bars-still g h (omega (arith, ap (λ x. length x.0) e))

  unload-status :
      (g h : Globals) (n : ℕ)
      → unload_passengers false g ≡ some (n, h)
      → IsLost 1 g
      → h.status ≡ g.status
  unfolding unload_passengers with_mutex free_list free_all disinfect
  unload-status g h n e l = ground arith

  unloaded_at-status : (g : Globals) → 0 < (unloaded_at g).loads → (unloaded_at g).status ≡ g.status
  unfolding unloaded_at
  unloaded_at-status g l = ground arith

  unload-Bars :
      (locked : Bool) (g h : Globals) (n : ℕ)
      → Inv g
      → unload_passengers locked g ≡ some (n, h)
      → Bars g h
  unload-Bars true g h n v e l s =
      let (m, h', e', u) = unload_rules g v in
      let merged = length-Merge {0} u.parts in
      let same : h' ≡ unloaded_at g = ap (λ o. o.1) (some_unique e' (unload_passengers_lem g v)) in
      let status : h'.status ≡ g.status =
        subst (λ (k : Globals). 0 < k.loads → k.status ≡ g.status) (sym same) (unloaded_at-status g)
          (omega (arith, l, u.lighter, merged)) in
      subst (λ o. (o.1.status ≢ 0) × (of_type 0 (came_aboard i g o.1) ≡ [])) (some_unique e' e)
        (Bars-still g h' (omega (arith, merged)) status l s)
  unload-Bars false g h n v e l s =
      Bars-holdings g h (unlocked_unload-holdings g h n e) (unload-status g h n e l) l s

  loaded-Bars : (g : Globals) (j : ℕ) (queue : List Passenger) → Bars g (loaded_at g j queue)
  loaded-Bars g j queue l s = (
    infect_all_mono g.status (boarding g j queue) s,
    elim (Bool-cases (g.current_floor == suc i)) [
      | inl t ↦
          rw (t, drop-append g.onboard (boarding g j queue))
            (human_refused g.loads g.status queue s)
      | inr f ↦ rw f refl
    ],
  )

  load-Bars :
      (locked : Bool) (g h : Globals) (n : ℕ)
      → Inv g
      → load_passengers locked g ≡ some (n, h)
      → Bars g h
  load-Bars true g h n v e =
      let (j, queue, at, q) = queue_here g v in
      subst (λ o. Bars g o.1) (some_unique (load_passengers_lem g j queue v at q) e)
        (loaded-Bars g j queue)
  load-Bars false g h n v e =
      Bars-holdings g h (unlocked_load-holdings g h n e) (unlocked_load-status g h n e)

  stop-Bars : (locked : Bool) (g h : Globals) → stop_section locked g ≡ some (tt, h) → Bars g h
  stop-Bars true g h e =
      subst (λ o. Bars g o.1) (some_unique (stop_section_lem g) e)
        (Bars-still g (emptied g) (omega arith) refl)
  stop-Bars false g h e =
      Bars-holdings g h (unlocked_stop-holdings g h e) (unlocked_stop-status g h e)

  request-car :
      (locked allocated : Bool) (p : Passenger) (g h : Globals)
      → request_section locked allocated p g ≡ some (tt, h)
      → h.elevator ≡ g.elevator
  unfolding request_section request_body with_mutex add_waiting
  request-car locked allocated p g h e = ground arith

  Bars-IsStepwise : IsStepwise Bars
  Bars-IsStepwise = record {
    pieces = record {
      same = λ g. Bars-still g g (omega arith) refl;
      rests = λ g. Bars-holdings g (rest_idle g) (rest_idle-holdings g) (rest_idle-status g);
      pauses = λ g m n. Bars-holdings g (pause m n g) (pause-holdings g m n) (pause-status g m n);
      retires = λ g. Bars-holdings g (go_offline g) (go_offline-holdings g) (go_offline-status g);
      sets_off = λ g. Bars-holdings g (set_off g) (set_off-holdings g) (set_off-status g);
      moves = λ g.
          Bars-holdings g (move_elevator g) (move_elevator-holdings g) (move_elevator-status g);
      unloads = unload-Bars;
      loads = load-Bars;
    };
    starts = λ g.
        Bars-holdings g (start_elevator g).1 (start_elevator-holdings g) (start_elevator-status g);
    stop_enters = λ g h e. Bars-holdings g h (stop_entry-holdings g h e) (stop_entry-status g h e);
    stops = λ locked g h v e. stop-Bars locked g h e;
    requests = λ locked allocated p g h v r e.
        let car = request-car locked allocated p g h e in
        Bars-still g h (omega (arith, ap (λ c. length c.onboard) car)) (ap (λ c. c.status) car);
  }

  -- The state stays so, and no human boards.
  Run-Bars :
      {s t : System} (run : Run s t)
      → Reach s
      → IsLost 1 s.globals
      → s.globals.status ≢ 0
      → (t.globals.status ≢ 0) × (of_type 0 (all_who_boarded i run) ≡ [])
  Run-Bars stay r l z = (z, refl)
  Run-Bars (go {t} {u} run st) r l z =
      let (zt, none_yet) = Run-Bars run r l z in
      let lost = Run-keeps (IsLost 1) (IsLost-IsStepwise 1) run r l in
      let (zu, nobody) = Step-keeps Bars Bars-IsStepwise (Run-Reach run r) st lost zt in
      (
        zu,
        of_type-append 0 (all_who_boarded i run) (came_aboard i t.globals u.globals)
            ∙ ap (λ ps. ps ++ of_type 0 (came_aboard i t.globals u.globals)) none_yet
            ∙ nobody,
      )

-- If the section of a stop takes effect under the lock in a reachable state in which the car is
-- infected, it stays infected for good: after any further run of the threads, starting the
-- elevator again included, `status` is not 0, and no human has boarded on any floor in that run.
pub stop_bars_humans :
    {s t : System} (before after : List Pending) {h : Globals} (i : ℕ)
    → Reach s
    → s.pending ≡ before ++ stopping ∷ after
    → stop_section true s.globals ≡ some (tt, h)
    → s.globals.status ≢ 0
    → (run : Run (record s { globals = h; pending = before ++ after }) t)
    → (t.globals.status ≢ 0) × (of_type 0 (all_who_boarded i run) ≡ [])
stop_bars_humans {s} {t} before after {h} i r q e z run =
    let v = Reach-Inv r in
    let full : 0 < s.globals.loads = ground (arith, v.empty_clean) in
    let same = some_unique (stop_section_lem s.globals) e in
    Run-Bars i run (next r (stopped true before after q e))
      (subst (λ o. IsLost 1 o.1) same (omega arith)) (subst (λ o. o.1.status ≢ 0) same z)
