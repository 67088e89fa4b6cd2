-- ===== src/Elevator/Invariant/Scheduler.antt =====
-- part3/elevator.c: `scheduler` against the invariant, whatever the kernel answers.
use kernal_elevator.Base.{
  ℕ, ◌≡◌, refl, ◌∙◌, inl, inr, Bool, false, some, List, [], ◌∷◌, arith, Bool-cases, if◌then◌else◌,
  ◌==◌, slt, ◌&&◌,
}
use kernal_elevator.Elevator.State.{Globals, capacity, set_state, ssleep, move_time}
use kernal_elevator.Elevator.Motion.{move_elevator}
use kernal_elevator.Elevator.Scheduler.{
  Answers, has_work, must_move, rest_idle, load_if_room, pause, go_offline, set_off,
  scheduler_round, scheduler, Pc, top, unloading, boarding, pausing, deciding, moving, exited,
  scheduler_step,
}
use kernal_elevator.Elevator.Invariant.Defs.{Inv, Inv-outside}
use kernal_elevator.Elevator.Invariant.Boarding.{unload_passengers-Inv}
use kernal_elevator.Elevator.Invariant.Loading.{load_passengers-Inv}
use kernal_elevator.Elevator.Invariant.Motion.{
  direction, change_elevator_state_lem, move_elevator_lem, moved-Inv,
}

-- What the thread knows besides: before it moves, the state is the direction.
abbrev pub Knows : Pc → Globals → Type 0
Knows moving g = g.state ≡ direction g
Knows _ g = Unit

pub rest_idle-Inv : (g : Globals) → Inv g → Inv (rest_idle g)
unfolding rest_idle
rest_idle-Inv g v = elim (Bool-cases (g.started == 0)) [
  | inl e ↦ rw (e, rest_idle) (Inv-outside v)
  | inr e ↦ rw (e, rest_idle) (Inv-outside v)
]

pub pause-Inv : (m n : ℕ) (g : Globals) → Inv g → Inv (pause m n g)
unfolding pause
pause-Inv m n g v = elim (Bool-cases (m == 0 && n == 0)) [
  | inl e ↦ rw (e, pause) v
  | inr e ↦ rw (e, pause) (Inv-outside v)
]

pub go_offline-Inv : (g : Globals) → Inv g → Inv (go_offline g)
unfolding go_offline
go_offline-Inv g v = elim (Bool-cases (g.deactiving == 0)) [
  | inl e ↦ rw (e, go_offline) v
  | inr e ↦ rw (e, go_offline) (Inv-outside v)
]

pub set_off_lem : (g : Globals) → Inv g → set_off g ≡ ssleep move_time (set_state (direction g) g)
unfolding set_off
set_off_lem g v = rw (change_elevator_state_lem g v.track)

pub set_off-Inv : (g : Globals) → Inv g → Inv (set_off g) × Knows moving (set_off g)
unfolding set_state ssleep
set_off-Inv g v = rw (set_off_lem g v) (Inv-outside v, refl)

pub move_elevator-Inv : (g : Globals) → Inv g → Knows moving g → Inv (move_elevator g)
move_elevator-Inv g v k = rw (move_elevator_lem g v.track k) (moved-Inv g v)

pub load_if_room-Inv :
    (locked : Bool) (g : Globals)
    → Inv g
    → (n : ℕ) × (h : Globals) × (load_if_room locked g ≡ some (n, h)) × Inv h
unfolding load_if_room
load_if_room-Inv locked g v = elim (Bool-cases (slt g.loads capacity)) [
  | inl e ↦ rw (e, load_if_room) (load_passengers-Inv locked g v)
  | inr e ↦ rw (e, load_if_room) (_, _, refl, v)
]

-- Every atomic piece of the loop runs without a fault and keeps the invariant.
pub scheduler_step-Inv :
    (a : Answers) (pc : Pc) (g : Globals)
    → Inv g
    → Knows pc g
    → (pc' : Pc) × (h : Globals) × (scheduler_step a pc g ≡ some (pc', h)) × Inv h × Knows pc' h
unfolding scheduler_step
scheduler_step-Inv a top g v k = elim (Bool-cases a.should_stop) [
  | inl e ↦ rw e (_, _, refl, v, tt)
  | inr e ↦ elim (Bool-cases (has_work g)) [
    | inl w ↦ rw (e, w) (_, _, refl, v, tt)
    | inr w ↦ rw (e, w) (_, _, refl, rest_idle-Inv g v, tt)
  ]
]
scheduler_step-Inv a unloading g v k =
    let (m, h, e, w) = unload_passengers-Inv a.unload_locked g v in rw (e) (_, _, refl, w, tt)
scheduler_step-Inv a (boarding m) g v k =
    let (n, h, e, w) = load_if_room-Inv a.load_locked g v in rw (e) (_, _, refl, w, tt)
scheduler_step-Inv a (pausing m n) g v k = (_, _, refl, pause-Inv m n g v, tt)
scheduler_step-Inv a deciding g v k = elim (Bool-cases (must_move g)) [
  | inl e ↦ let (w, m) = set_off-Inv g v in rw e (_, _, refl, w, m)
  | inr e ↦ rw e (_, _, refl, go_offline-Inv g v, tt)
]
scheduler_step-Inv a moving g v k = (_, _, refl, move_elevator-Inv g v k, tt)
scheduler_step-Inv a exited g v k = (_, _, refl, v, tt)

-- So does every turn of the loop that is not preempted.
pub scheduler_round-Inv :
    (a : Answers) (g : Globals) → Inv g → (h : Globals) × (scheduler_round a g ≡ some h) × Inv h
unfolding scheduler_round
scheduler_round-Inv a g v = elim (Bool-cases (has_work g)) [
  | inr e ↦ rw e (_, refl, rest_idle-Inv g v)
  | inl e ↦
      let (m, g1, e1, v1) = unload_passengers-Inv a.unload_locked g v in
      let (n, g2, e2, v2) = load_if_room-Inv a.load_locked g1 v1 in
      rw (e, e1, e2) (_, refl, leave m n g2 v2)
]
  where
    leave :
        (m n : ℕ) (g2 : Globals)
        → Inv g2
        → Inv (
            if must_move (pause m n g2)
            then move_elevator (set_off (pause m n g2))
            else go_offline (pause m n g2))
    leave m n g2 v2 = elim (Bool-cases (must_move (pause m n g2))) [
      | inl e ↦ let (w, k) = set_off-Inv _ (pause-Inv m n g2 v2) in rw e (move_elevator-Inv _ w k)
      | inr e ↦ rw e (go_offline-Inv _ (pause-Inv m n g2 v2))
    ]

pub scheduler_turn :
    (a : Answers) (rest : List Answers) (g h : Globals)
    → a.should_stop ≡ false
    → scheduler_round a g ≡ some h
    → scheduler (a ∷ rest) g ≡ scheduler rest h
unfolding scheduler
scheduler_turn a rest g h e r = ground arith

-- From a state with the invariant, every run of the scheduler's thread, whatever the kernel
-- answers in each turn, ends without a fault in a state with the invariant.
pub scheduler-Inv :
    (as' : List Answers) (g : Globals) → Inv g → (h : Globals) × (scheduler as' g ≡ some h) × Inv h
unfolding scheduler
scheduler-Inv [] g v = (g, refl, v)
scheduler-Inv (a ∷ rest) g v = elim (Bool-cases a.should_stop) [
  | inl e ↦ (g, ground arith, v)
  | inr e ↦
      let (h, r, w) = scheduler_round-Inv a g v in
      let (k, r', w') = scheduler-Inv rest h w in (k, scheduler_turn a rest g h e r ∙ r', w')
]
