-- ===== src/System/Lines.antt =====
-- part3/elevator.c: the queue of a floor, over the pieces of all threads, type by type.
use native.Mathlib.Decide.{ℕ_discrete}
use kernal_elevator.Base.{
  ℕ, suc, ◌≤◌, ◌≡◌, ◌≢◌, refl, sym, ap, subst, ◌∙◌, Bool, true, false, ◌&&◌, some, some_unique,
  List, [], ◌∷◌, ◌++◌, append-nil, arith, ◌==◌, if◌then◌else◌, length, length-Merge, get_elem?,
  get_elem?-set_ne, get_elem?-set_self, set, drop, drop-all, drop-append,
}
use kernal_elevator.Elevator.State.{Passenger, Globals}
use kernal_elevator.Elevator.Boarding.{unload_passengers, load_passengers}
use kernal_elevator.Elevator.Boarding.Order.{of_type, boarders-stayers-of_type}
use kernal_elevator.Elevator.Motion.{move_elevator}
use kernal_elevator.Elevator.Scheduler.{rest_idle, pause, go_offline, set_off}
use kernal_elevator.Elevator.Invariant.Defs.{Inv}
use kernal_elevator.Elevator.Invariant.Loading.{
  boarding, staying, queue_here, load_passengers_lem, loaded_at,
}
use kernal_elevator.Elevator.Contract.Loading.{unload_rules}
use kernal_elevator.Elevator.Keeps.{
  holdings, rest_idle-holdings, pause-holdings, go_offline-holdings, set_off-holdings,
  move_elevator-holdings, unlocked_unload-holdings, unlocked_load-holdings,
}
use kernal_elevator.System.Defs.{System, Step, requested, Run, stay, go}
use kernal_elevator.System.Pieces.{IsPiecewise}
use kernal_elevator.System.Waiting.{lt_of_get}

module _ (i : ℕ) where
  -- Those who came aboard, if the car stands at the floor of index `i`.
  abbrev pub came_aboard : Globals → Globals → List Passenger
  came_aboard g h = if g.current_floor == suc i then drop (length g.onboard) h.onboard else []

  -- The passenger of a request whose section lets him in, if it is for that floor.
  abbrev pub let_in : Bool → Passenger → Globals → List Passenger
  let_in locked p g = if locked && g.deactiving == 0 && p.start_floor == suc i then p ∷ [] else []

  abbrev pub comes : {s t : System} → Step s t → List Passenger
  comes {s} (requested locked allocated p before after q e) = let_in locked p s.globals
  comes _ = []

  -- Over a run: those who came to the floor, and those who boarded there, in the order of the steps.
  abbrev pub all_who_came : {s t : System} → Run s t → List Passenger
  all_who_came stay = []
  all_who_came (go run st) = all_who_came run ++ comes st

  abbrev pub all_who_boarded : {s t : System} → Run s t → List Passenger
  all_who_boarded stay = []
  all_who_boarded (go {t} {u} run st) = all_who_boarded run ++ came_aboard t.globals u.globals

  pub record Passes (come : List Passenger) (g h : Globals) (queue : List Passenger) : Type 0 where
    pub after : List Passenger
    pub there : get_elem? h.waiting_list i ≡ some after
    pub order : (k : ℕ) → of_type k (queue ++ come) ≡ of_type k (came_aboard g h) ++ of_type k after

  abbrev pub Keeps : Globals → Globals → Type 0
  Keeps g h =
      (queue : List Passenger) → get_elem? g.waiting_list i ≡ some queue → Passes [] g h queue

  -- Where nobody comes aboard and the lists are the same, nothing passes.
  pub nobody_aboard : (g h : Globals) → length h.onboard ≤ length g.onboard → came_aboard g h ≡ []
  nobody_aboard g h l = ground (arith, drop-all (length g.onboard) h.onboard l)

  pub Passes-behind :
      (come : List Passenger) (g h : Globals) (queue : List Passenger)
      → length h.onboard ≤ length g.onboard
      → get_elem? h.waiting_list i ≡ some (queue ++ come)
      → Passes come g h queue
  Passes-behind come g h queue l q = record {
    after = queue ++ come;
    there = q;
    order = λ k. rw (nobody_aboard g h l) refl;
  }

  pub Keeps-lists :
      (g h : Globals)
      → h.waiting_list ≡ g.waiting_list
      → length h.onboard ≤ length g.onboard
      → Keeps g h
  Keeps-lists g h e l queue q =
      Passes-behind [] g h queue l
        (ap (λ qs. get_elem? qs i) e ∙ q ∙ ap some (sym (append-nil queue)))

  pub Keeps-holdings : (g h : Globals) → holdings h ≡ holdings g → Keeps g h
  Keeps-holdings g h e = Keeps-lists g h (ap (λ x. x.2) e) (omega (arith, ap (λ x. length x.0) e))

  unload-Keeps :
      (locked : Bool) (g h : Globals) (n : ℕ)
      → Inv g
      → unload_passengers locked g ≡ some (n, h)
      → Keeps g h
  unload-Keeps true g h n v e =
      let (m, h', e', u) = unload_rules g v in
      subst (λ o. Keeps g o.1) (some_unique e' e)
        (Keeps-lists g h' u.queues (omega (arith, length-Merge {0} u.parts)))
  unload-Keeps false g h n v e = Keeps-holdings g h (unlocked_unload-holdings g h n e)

  loaded-Keeps :
      (g : Globals) (j : ℕ) (others : List Passenger)
      → Inv g
      → g.current_floor ≡ suc j
      → get_elem? g.waiting_list j ≡ some others
      → Keeps g (loaded_at g j others)
  loaded-Keeps g j others v at o queue q = elim (ℕ_discrete j i) [
    | yes e ↦ record {
      after = staying g j others;
      there =
          subst
            (λ n.
              get_elem? (set g.waiting_list j (staying g j others)) n ≡ some (staying g j others))
            e
            (get_elem?-set_self g.waiting_list j (staying g j others)
              (lt_of_get g.waiting_list j o));
      order = λ k.
          ap (of_type k) (
            append-nil queue
            ∙ some_unique q (subst (λ n. get_elem? g.waiting_list n ≡ some others) e o))
          ∙ boarders-stayers-of_type k g.loads g.status others
          ∙ ap (λ ps. of_type k ps ++ of_type k (staying g j others)) (sym (boards e));
    }
    | no ne ↦ record {
      after = queue;
      there = get_elem?-set_ne g.waiting_list j i (staying g j others) ne ∙ q;
      order = λ k. rw (append-nil queue, elsewhere ne) refl;
    }
  ]
    where
      boards : j ≡ i → came_aboard g (loaded_at g j others) ≡ boarding g j others
      boards e = ground (arith, drop-append g.onboard (boarding g j others))

      elsewhere : j ≢ i → came_aboard g (loaded_at g j others) ≡ []
      elsewhere ne = ground arith

  load-Keeps :
      (locked : Bool) (g h : Globals) (n : ℕ)
      → Inv g
      → load_passengers locked g ≡ some (n, h)
      → Keeps g h
  load-Keeps true g h n v e =
      let (j, others, at, q) = queue_here g v in
      subst (λ o. Keeps g o.1) (some_unique (load_passengers_lem g j others v at q) e)
        (loaded-Keeps g j others v at q)
  load-Keeps false g h n v e = Keeps-holdings g h (unlocked_load-holdings g h n e)

  pub Keeps-IsPiecewise : IsPiecewise Keeps
  Keeps-IsPiecewise = record {
    same = λ g. Keeps-holdings g g refl;
    rests = λ g. Keeps-holdings g (rest_idle g) (rest_idle-holdings g);
    pauses = λ g m n. Keeps-holdings g (pause m n g) (pause-holdings g m n);
    retires = λ g. Keeps-holdings g (go_offline g) (go_offline-holdings g);
    sets_off = λ g. Keeps-holdings g (set_off g) (set_off-holdings g);
    moves = λ g. Keeps-holdings g (move_elevator g) (move_elevator-holdings g);
    unloads = unload-Keeps;
    loads = load-Keeps;
  }
