-- ===== src/System/Pieces.antt =====
-- A relation between the states before and after, over every piece of every thread.
use kernal_elevator.Base.{
  ℕ, ◌≡◌, refl, sym, subst, ◌∙◌, ◌⊎◌, inl, inr, Bool, some, some_unique, arith, Bool-cases, slt,
}
use kernal_elevator.Elevator.State.{Passenger, Globals, capacity}
use kernal_elevator.Elevator.Calls.{start_elevator, request_section, stop_entry, stop_section}
use kernal_elevator.Elevator.Boarding.{unload_passengers, load_passengers}
use kernal_elevator.Elevator.Motion.{move_elevator}
use kernal_elevator.Elevator.Scheduler.{
  Answers, rest_idle, load_if_room, pause, go_offline, set_off, Pc, top, unloading, boarding,
  pausing, deciding, moving, exited, scheduler_step,
}
use kernal_elevator.Elevator.Invariant.Defs.{Inv}
use kernal_elevator.Elevator.Invariant.Calls.{IsRequest}
use kernal_elevator.Elevator.Invariant.Boarding.{unload_passengers-Inv}
use kernal_elevator.Elevator.Invariant.Scheduler.{load_if_room-Inv}
use kernal_elevator.System.Defs.{
  System, Step, schedule, start, request, stop, requested, stopped, Reach, here, next, init, Run,
  stay, go,
}
use kernal_elevator.System.Reach.{Reach-Inv, Reach-IsRequest, Run-Reach}

-- The relation holds over each piece of the scheduler's loop, in a state with the invariant.
pub record IsPiecewise (R : Globals → Globals → Type 0) : Type 0 where
  pub same : (g : Globals) → R g g
  pub rests : (g : Globals) → R g (rest_idle g)
  pub pauses : (g : Globals) (m n : ℕ) → R g (pause m n g)
  pub retires : (g : Globals) → R g (go_offline g)
  pub sets_off : (g : Globals) → R g (set_off g)
  pub moves : (g : Globals) → R g (move_elevator g)
  pub unloads :
      (locked : Bool) (g h : Globals) (n : ℕ)
      → Inv g
      → unload_passengers locked g ≡ some (n, h)
      → R g h
  pub loads :
      (locked : Bool) (g h : Globals) (n : ℕ)
      → Inv g
      → load_passengers locked g ≡ some (n, h)
      → R g h

-- And over each call.
pub record IsStepwise (R : Globals → Globals → Type 0) : Type 0 where
  pub pieces : IsPiecewise R
  pub starts : (g : Globals) → R g (start_elevator g).1
  pub stop_enters : (g h : Globals) → stop_entry g ≡ some h → R g h
  pub stops : (locked : Bool) (g h : Globals) → Inv g → stop_section locked g ≡ some (tt, h) → R g h
  pub requests :
      (locked allocated : Bool) (p : Passenger) (g h : Globals)
      → Inv g
      → IsRequest p
      → request_section locked allocated p g ≡ some (tt, h)
      → R g h

pub unloading_step :
    (a : Answers) (g h : Globals) (n : ℕ)
    → unload_passengers a.unload_locked g ≡ some (n, h)
    → scheduler_step a unloading g ≡ some (boarding n, h)
unfolding scheduler_step
unloading_step a g h n e = rw e refl

pub boarding_step :
    (a : Answers) (m : ℕ) (g h : Globals) (n : ℕ)
    → load_if_room a.load_locked g ≡ some (n, h)
    → scheduler_step a (boarding m) g ≡ some (pausing m n, h)
unfolding scheduler_step
boarding_step a m g h n e = rw e refl

pub load_if_room-cases :
    (locked : Bool) (g : Globals)
    → (load_if_room locked g ≡ load_passengers locked g) ⊎ (load_if_room locked g ≡ some (0, g))
unfolding load_if_room
load_if_room-cases locked g = elim (Bool-cases (slt g.loads capacity)) [
  | inl t ↦ inl (rw (t, load_if_room) refl)
  | inr f ↦ inr (rw (f, load_if_room) refl)
]

-- A step at the top, or after the pause, leaves one of two states.
pub top-cases :
    (a : Answers) (pc : Pc) (g h : Globals)
    → scheduler_step a top g ≡ some (pc, h)
    → (g ≡ h) ⊎ (rest_idle g ≡ h)
unfolding scheduler_step
top-cases a pc g h e = ground arith

pub deciding-cases :
    (a : Answers) (pc : Pc) (g h : Globals)
    → scheduler_step a deciding g ≡ some (pc, h)
    → (set_off g ≡ h) ⊎ (go_offline g ≡ h)
unfolding scheduler_step
deciding-cases a pc g h e = ground arith

module _ (R : Globals → Globals → Type 0) (w : IsPiecewise R) where
  load_if_room-keeps :
      (locked : Bool) (g h : Globals) (n : ℕ) → Inv g → load_if_room locked g ≡ some (n, h) → R g h
  load_if_room-keeps locked g h n v e = elim (load_if_room-cases locked g) [
    | inl t ↦ w.loads locked g h n v (sym t ∙ e)
    | inr f ↦ subst (λ r. R g r.1) (some_unique f e) (w.same g)
  ]

  pub scheduler_step-keeps :
      (a : Answers) (pc pc' : Pc) (g h : Globals)
      → Inv g
      → scheduler_step a pc g ≡ some (pc', h)
      → R g h
  unfolding scheduler_step
  scheduler_step-keeps a top pc' g h v e = elim (top-cases a pc' g h e) [
    | inl f ↦ subst (R g) f (w.same g)
    | inr f ↦ subst (R g) f (w.rests g)
  ]
  scheduler_step-keeps a unloading pc' g h v e =
      let (n, k, f, _) = unload_passengers-Inv a.unload_locked g v in
      subst (λ r. R g r.1) (some_unique (unloading_step a g k n f) e)
        (w.unloads a.unload_locked g k n v f)
  scheduler_step-keeps a (boarding m) pc' g h v e =
      let (n, k, f, _) = load_if_room-Inv a.load_locked g v in
      subst (λ r. R g r.1) (some_unique (boarding_step a m g k n f) e)
        (load_if_room-keeps a.load_locked g k n v f)
  scheduler_step-keeps a (pausing m n) pc' g h v e =
      subst (λ r. R g r.1) (some_unique refl e) (w.pauses g m n)
  scheduler_step-keeps a deciding pc' g h v e = elim (deciding-cases a pc' g h e) [
    | inl f ↦ subst (R g) f (w.sets_off g)
    | inr f ↦ subst (R g) f (w.retires g)
  ]
  scheduler_step-keeps a moving pc' g h v e = subst (λ r. R g r.1) (some_unique refl e) (w.moves g)
  scheduler_step-keeps a exited pc' g h v e = subst (λ r. R g r.1) (some_unique refl e) (w.same g)

module _ (R : Globals → Globals → Type 0) (w : IsStepwise R) where
  -- So the relation holds over every step from a reachable state.
  pub Step-keeps : {s t : System} → Reach s → Step s t → R s.globals t.globals
  Step-keeps {s} r (schedule a {pc} {h} e) =
      scheduler_step-keeps R w.pieces a s.pc pc s.globals h (Reach-Inv r) e
  Step-keeps {s} r start = w.starts s.globals
  Step-keeps {s} r (request _ _ _ _ _) = w.pieces.same s.globals
  Step-keeps {s} r (stop {h} e) = w.stop_enters s.globals h e
  Step-keeps {s} r (requested locked allocated p before after {h} q e) =
      w.requests locked allocated p s.globals h (Reach-Inv r) (Reach-IsRequest r before after p q) e
  Step-keeps {s} r (stopped locked before after {h} q e) =
      w.stops locked s.globals h (Reach-Inv r) e

-- A predicate that every piece keeps holds after any run.
module _ (P : Globals → Type 0) (w : IsStepwise (λ g h. P g → P h)) where
  pub Run-keeps : {s t : System} → Run s t → Reach s → P s.globals → P t.globals
  Run-keeps stay r p = p
  Run-keeps (go run st) r p =
      Step-keeps (λ g h. P g → P h) w (Run-Reach run r) st (Run-keeps run r p)

  pub Reach-keeps : P init.globals → {s : System} → Reach s → P s.globals
  Reach-keeps p here = p
  Reach-keeps p (next r st) = Step-keeps (λ g h. P g → P h) w r st (Reach-keeps p r)
