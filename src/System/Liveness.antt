-- ===== src/System/Liveness.antt =====
-- part3/elevator.c: the pieces of `scheduler` in a run of the threads, and the floor that it
-- serves.
use kernal_elevator.Base.{
  ℕ, suc, ◌≤◌, ◌≡◌, ◌≢◌, true, false, refl, sym, ap, subst, ◌∙◌, ◌⊎◌, inl, inr, arith,
}
use kernal_elevator.Elevator.State.{Globals, floors}
use kernal_elevator.Elevator.Calls.{start_elevator}
use kernal_elevator.Elevator.Scheduler.{
  Answers, Pc, top, unloading, boarding, pausing, deciding, moving, exited,
}
use kernal_elevator.Elevator.Invariant.Motion.{position}
use kernal_elevator.Elevator.Invariant.Car.{
  car, start_elevator-car, stop_entry-car, request_section-car, stop_section-car,
}
use kernal_elevator.Elevator.Service.Sweep.{moves}
use kernal_elevator.System.Defs.{
  System, Step, schedule, start, request, stop, requested, stopped, Reach, Run, stay, go,
}
use kernal_elevator.System.Reach.{Reach-Inv, Reach-Knows, Run-Reach}
use kernal_elevator.System.Way.{IsPursuit, Underway, IsClear, Underway-soon, set_out}
use kernal_elevator.System.Pursuit.{piece-Next}

-- The pieces that the scheduler takes in a run.
abbrev pub tick : {s t : System} → Step s t → ℕ → ℕ
tick (schedule _ _) n = suc n
tick _ n = n

abbrev pub ticks : {s t : System} → Run s t → ℕ
ticks stay = 0
ticks (go run st) = tick st (ticks run)

-- At some time in a run, its ends included.
abbrev pub Sometime : (System → Type 0) → {s t : System} → Run s t → Type 0
Sometime P {s} stay = P s
Sometime P {s} (go {t} {u} run st) = Sometime P run ⊎ P u

pub Sometime-start : (P : System → Type 0) {s t : System} (run : Run s t) → P s → Sometime P run
Sometime-start P stay a = a
Sometime-start P (go run st) a = inl (Sometime-start P run a)

-- At every step of a run.
abbrev pub Always : ((s t : System) → Step s t → Type 0) → {s t : System} → Run s t → Type 0
Always A stay = Unit
Always A (go {t} {u} run st) = Always A run × A t u st

abbrev pub IsCall : {s t : System} → Step s t → Type 0
IsCall (schedule _ _) = ⊥
IsCall _ = Unit

-- The thread is not told to stop and gets the mutex, and nobody else gets it.
abbrev pub IsUndisturbed : (s t : System) → Step s t → Type 0
IsUndisturbed s t (schedule a _) =
    (a.should_stop ≡ false) × (a.unload_locked ≡ true) × (a.load_locked ≡ true)
IsUndisturbed s t (requested _ _ _ _ _ _ _) = ⊥
IsUndisturbed s t (stopped _ _ _ _ _) = ⊥
IsUndisturbed s t _ = Unit

car-position : (g h : Globals) → car h ≡ car g → position h ≡ position g
car-position g h e = ap (λ c. record { current = c.1; next = c.2 }) e

-- A call leaves the car where it is, and the scheduler where it stands.
pub call-keeps :
    {s t : System} (st : Step s t)
    → IsCall st
    → (position t.globals ≡ position s.globals) × (t.pc ≡ s.pc)
call-keeps (schedule _ _) c = absurd c
call-keeps {s} start c =
    (car-position s.globals (start_elevator s.globals).1 (start_elevator-car s.globals), refl)
call-keeps (request _ _ _ _ _) c = (refl, refl)
call-keeps {s} (stop {h} e) c = (car-position s.globals h (stop_entry-car s.globals h e), refl)
call-keeps {s} (requested locked allocated p _ _ {h} _ e) c =
    (car-position s.globals h (request_section-car locked allocated p s.globals e), refl)
call-keeps {s} (stopped locked _ _ {h} _ e) c =
    (car-position s.globals h (stop_section-car locked s.globals e), refl)

-- The scheduler is given the answers that `Ok` asks for.
abbrev pub Grants : (Answers → Globals → Type 0) → {s t : System} → Step s t → Type 0
Grants Ok {s} (schedule a _) = Ok a s.globals
Grants Ok _ = Unit

-- A fact `P` that the calls keep too, in the steps that `A` allows.
pub record IsCarried (Ok : Answers → Globals → Type 0) (P Clear : Globals → Type 0)
    (A : (s t : System) → Step s t → Type 0) : Type 0 where
  pub grants : (s t : System) (st : Step s t) → A s t st → Grants Ok st
  pub calls :
      (s t : System) (st : Step s t) → Reach s → A s t st → IsCall st → P s.globals → P t.globals
  pub clear : (g h : Globals) → position h ≡ position g → Clear g → Clear h

module _ (floor : ℕ) (Ok : Answers → Globals → Type 0) (P Clear : Globals → Type 0)
    (Done : Pc → Globals → Type 0) (A : (s t : System) → Step s t → Type 0)
    (w : IsPursuit floor Ok P Clear Done) (c : IsCarried Ok P Clear A) (low : 1 ≤ floor)
    (high : floor ≤ floors) where
  abbrev Way : ℕ → System → Type 0
  Way used s = Underway floor Ok P Clear Done used s.pc s.globals

  IsClear-on :
      (pc : Pc) (g h : Globals)
      → position h ≡ position g
      → IsClear floor Ok P Clear Done pc g
      → IsClear floor Ok P Clear Done pc h
  IsClear-on (boarding _) g h e z = c.clear g h e z
  IsClear-on top g h e z = tt
  IsClear-on unloading g h e z = tt
  IsClear-on (pausing _ _) g h e z = tt
  IsClear-on deciding g h e z = tt
  IsClear-on moving g h e z = tt
  IsClear-on exited g h e z = tt

  call-Way :
      (used : ℕ) (s t : System) (st : Step s t)
      → Reach s
      → A s t st
      → IsCall st
      → Way used s
      → Way used t
  call-Way used s t st r a k u =
      let (e, q) = call-keeps st k in
      let at : Underway floor Ok P Clear Done used s.pc t.globals = record {
        k = u.k;
        path = ap (λ p. (moves u.k p).current) e ∙ u.path;
        round = u.round;
        in_time = u.in_time;
        fact = c.calls s t st r a k u.fact;
        clear = IsClear-on s.pc s.globals t.globals e u.clear;
      } in
      subst (λ pc. Underway floor Ok P Clear Done used pc t.globals) (sym q) at

  Step-Way :
      (used : ℕ) (s t : System) (st : Step s t)
      → Reach s
      → A s t st
      → Way used s
      → Done t.pc t.globals ⊎ Way (tick st used) t
  Step-Way used s t (schedule a {pc} {h} e) r o u =
      piece-Next floor Ok P Clear Done w a s.pc pc s.globals h used (Reach-Inv r) (Reach-Knows r)
        (c.grants s t (schedule a e) o) u e
  Step-Way used s t start r o u = inr (call-Way used s t start r o tt u)
  Step-Way used s t (request p x y z e) r o u = inr (call-Way used s t (request p x y z e) r o tt u)
  Step-Way used s t (stop e) r o u = inr (call-Way used s t (stop e) r o tt u)
  Step-Way used s t (requested l k p b f q e) r o u =
      inr (call-Way used s t (requested l k p b f q e) r o tt u)
  Step-Way used s t (stopped l b f q e) r o u = inr (call-Way used s t (stopped l b f q e) r o tt u)

  Run-Way :
      {s t : System} (run : Run s t)
      → Reach s
      → Always A run
      → Way 0 s
      → Sometime (λ u. Done u.pc u.globals) run ⊎ Way (ticks run) t
  Run-Way stay r o u = inr u
  Run-Way (go {t} {u} run st) r (o, z) y = elim (Run-Way run r o y) [
    | inl d ↦ inl (inl d)
    | inr x ↦ elim (Step-Way (ticks run) t u st (Run-Reach run r) z x) [
      | inl d ↦ inl (inr d)
      | inr n ↦ inr n
    ]
  ]

  pub serves_within :
      {s t : System} (run : Run s t)
      → Reach s
      → Always A run
      → s.pc ≢ exited
      → P s.globals
      → IsClear floor Ok P Clear Done s.pc s.globals
      → 108 ≤ ticks run
      → Sometime (λ u. Done u.pc u.globals) run
  serves_within {s} {t} run r o awake p z enough =
      elim (Run-Way run r o
        (set_out floor Ok P Clear Done low high s.pc s.globals (Reach-Inv r) awake p z)) [
          | inl d ↦ d
          | inr u ↦
              absurd
                (omega (arith, Underway-soon floor Ok P Clear Done (ticks run) t.pc t.globals u))
        ]
