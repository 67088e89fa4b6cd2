-- ===== src/System/Boards.antt =====
-- part3/elevator.c: an empty car that is about to load where somebody waits.
use mathlib.Core.List.{Memᴰ}
use mathlib.Core.List.Memᴰ
use kernal_elevator.Base.{
  ℕ, suc, ◌+◌, ◌<◌, ◌≡◌, ◌≢◌, refl, sym, ap, subst, ◌∙◌, ◌⊎◌, inl, inr, true, some, some_unique,
  List, [], ◌∷◌, ◌++◌, arith, length, Merge, slt, Option-cases, get_elem?, All,
}
use kernal_elevator.Elevator.State.{Passenger, Globals, capacity}
use kernal_elevator.Elevator.Boarding.{load_passengers}
use kernal_elevator.Elevator.Scheduler.{Answers, Pc, boarding, load_if_room, scheduler_step}
use kernal_elevator.Elevator.Invariant.Defs.{Inv}
use kernal_elevator.Elevator.Invariant.Loading.{load_passengers-Inv}
use kernal_elevator.Elevator.Contract.Loading.{load_rules}
use kernal_elevator.System.Defs.{
  System, Step, schedule, start, request, stop, requested, stopped, Reach, Run, stay, go,
}
use kernal_elevator.System.Reach.{Reach-Inv, Run-Reach}
use kernal_elevator.System.Liveness.{
  IsUndisturbed, tick, ticks, Sometime, Always, IsCall, call-keeps,
}
use kernal_elevator.Elevator.Keeps.{holdings, start_elevator-holdings, stop_entry-holdings}
use kernal_elevator.Elevator.Invariant.Motion.{Position}
use kernal_elevator.System.Ebb.{Merge-nil}

abbrev pub Somebody : System → Type 0
Somebody s = (p : Passenger) × Memᴰ p s.globals.onboard

somebody : (ps : List Passenger) → 0 < length ps → (p : Passenger) × Memᴰ p ps
somebody [] h = absurd (omega arith)
somebody (p ∷ ps) h = (p, Memᴰ.head refl)

roomy : (g : Globals) → g.loads ≡ 0 → load_if_room true g ≡ load_passengers true g
unfolding load_if_room load_passengers slt
roomy g z = rw z refl

boarding_loads :
    (a : Answers) (m : ℕ) (g h : Globals) (pc : Pc)
    → scheduler_step a (boarding m) g ≡ some (pc, h)
    → (n : ℕ) × (load_if_room a.load_locked g ≡ some (n, h))
unfolding scheduler_step
boarding_loads a m g h pc e = elim (Option-cases (load_if_room a.load_locked g)) [
  | inl f ↦ absurd (ground (arith, f))
  | inr ((n, k), f) ↦ (n, ground (arith, f))
]

-- An empty car is not infected, and has room for whoever waits.
not_refused :
    (h : Globals) (stayed : List Passenger)
    → Inv h
    → h.loads ≡ 0
    → 0 < length stayed
    → All (λ p. (h.loads ≡ capacity) ⊎ ((p.type ≡ 0) × (h.status ≢ 0))) stayed
    → ⊥
not_refused h [] v z w r = omega arith
not_refused h (p ∷ ps) v z w (inl full, _) = omega arith
not_refused h (p ∷ ps) v z w (inr (_, infected), _) = infected (v.empty_clean z)

boarded_first :
    (g h : Globals) (queue boarded stayed : List Passenger)
    → Inv h
    → g.loads ≡ 0
    → 0 < length queue
    → Merge boarded stayed queue
    → h.onboard ≡ g.onboard ++ boarded
    → h.loads ≡ g.loads + length boarded
    → All (λ p. (h.loads ≡ capacity) ⊎ ((p.type ≡ 0) × (h.status ≢ 0))) stayed
    → (p : Passenger) × Memᴰ p h.onboard
boarded_first g h queue (p ∷ ps) stayed v z w m on l r =
    (p, subst (Memᴰ p) (sym on) (Memᴰ.append_right g.onboard (Memᴰ.head refl)))
boarded_first g h queue [] stayed v z w m on l r =
    absurd
      (not_refused h stayed v (omega arith) (subst (λ ps. 0 < length ps) (sym (Merge-nil m)) w) r)

-- The first of those who wait before an empty car boards.
load_empty :
    (g h : Globals) (i n : ℕ) (queue : List Passenger)
    → Inv g
    → g.loads ≡ 0
    → g.current_floor ≡ suc i
    → get_elem? g.waiting_list i ≡ some queue
    → 0 < length queue
    → load_if_room true g ≡ some (n, h)
    → (p : Passenger) × Memᴰ p h.onboard
load_empty g h i n queue v z at q w e =
    let (m, j, f, l, _) = load_rules g i queue v at q in
    let (k, j', f', v') = load_passengers-Inv true g v in
    let u = subst (λ o. Inv o.1) (some_unique f' f) v' in
    let room : load_if_room true g ≡ load_passengers true g = roomy g z in
    subst (λ o. (p : Passenger) × Memᴰ p o.1.onboard) (some_unique f (sym room ∙ e))
      (boarded_first g j queue l.boarded l.stayed u z w l.parts l.aboard l.heavier l.refused)

-- The thread is about to load an empty car at the floor of those who wait.
pub record Inviting (s : System) : Type 0 where
  pub slept : ℕ
  pub index : ℕ
  pub queue : List Passenger
  pub place : s.pc ≡ boarding slept
  pub empty : s.globals.loads ≡ 0
  pub here : s.globals.current_floor ≡ suc index
  pub waits : get_elem? s.globals.waiting_list index ≡ some queue
  pub someone : 0 < length queue

Inviting-piece :
    {s : System} (a : Answers) {pc : Pc} {h : Globals}
    → Reach s
    → a.load_locked ≡ true
    → Inviting s
    → scheduler_step a s.pc s.globals ≡ some (pc, h)
    → (p : Passenger) × Memᴰ p h.onboard
Inviting-piece {s} a {pc} {h} r o w e =
    let f = subst (λ c. scheduler_step a c s.globals ≡ some (pc, h)) w.place e in
    let (n, k) = boarding_loads a w.slept s.globals h pc f in
    load_empty s.globals h w.index n w.queue (Reach-Inv r) w.empty w.here w.waits w.someone
      (subst (λ b. load_if_room b s.globals ≡ some (n, h)) o k)

-- A call that moves nobody leaves the car and the queues where they are.
Inviting-still :
    {s t : System} (st : Step s t)
    → IsCall st
    → holdings t.globals ≡ holdings s.globals
    → Inviting s
    → Inviting t
Inviting-still {s = s} {t} st c e w =
    let (moved, pc) = call-keeps st c in
    record {
      slept = w.slept;
      index = w.index;
      queue = w.queue;
      place = pc ∙ w.place;
      empty = ap (λ x. x.1) e ∙ w.empty;
      here = ap (λ (p : Position). p.current) moved ∙ w.here;
      waits = ap (λ x. get_elem? x.2 w.index) e ∙ w.waits;
      someone = w.someone;
    }

Inviting-call :
    {s t : System} (st : Step s t) → IsUndisturbed s t st → IsCall st → Inviting s → Inviting t
Inviting-call (schedule _ _) o c w = absurd c
Inviting-call {s} start o c w = Inviting-still {s = s} start c (start_elevator-holdings s.globals) w
Inviting-call {s} (request p x y z e) o c w = Inviting-still {s = s} (request p x y z e) c refl w
Inviting-call {s} (stop {h} e) o c w =
    Inviting-still {s = s} (stop e) c (stop_entry-holdings s.globals h e) w
Inviting-call (requested _ _ _ _ _ _ _) o c w = absurd o
Inviting-call (stopped _ _ _ _ _) o c w = absurd o

-- A step of the thread, or a call.
Step-kinds :
    {s t : System} (st : Step s t)
    → Reach s
    → IsUndisturbed s t st
    → Inviting s
    → (Inviting t × ((n : ℕ) → tick st n ≡ n)) ⊎ Somebody t
Step-kinds (schedule a e) r o w = inr (Inviting-piece a r o.2 w e)
Step-kinds {s} start r o w = inl (Inviting-call {s = s} start o tt w, λ n. refl)
Step-kinds {s} (request p x y z e) r o w =
    inl (Inviting-call {s = s} (request p x y z e) o tt w, λ n. refl)
Step-kinds {s} (stop e) r o w = inl (Inviting-call {s = s} (stop e) o tt w, λ n. refl)
Step-kinds (requested _ _ _ _ _ _ _) r o w = absurd o
Step-kinds (stopped _ _ _ _ _) r o w = absurd o

-- With the next piece of the thread, somebody is aboard.
pub boards_soon :
    {s t : System} (run : Run s t)
    → Reach s
    → Always IsUndisturbed run
    → Inviting s
    → (Inviting t × (ticks run ≡ 0)) ⊎ Sometime Somebody run
boards_soon stay r o w = inl (w, refl)
boards_soon (go run st) r (o, z) w = elim (boards_soon run r o w) [
  | inr p ↦ inr (inl p)
  | inl (i, e) ↦ elim (Step-kinds st (Run-Reach run r) z i) [
    | inl (j, f) ↦ inl (j, f (ticks run) ∙ e)
    | inr p ↦ inr (inr p)
  ]
]
