-- ===== src/Elevator/Contract/Turns.antt =====
-- part3/elevator.c: a turn of the scheduler's loop against the pieces into which it can be cut.
use kernal_elevator.Base.{
  ℕ, zero, suc, ◌≡◌, refl, inl, inr, true, false, Option, some, Bool-cases, ◌>>=◌,
}
use kernal_elevator.Elevator.State.{Globals}
use kernal_elevator.Elevator.Motion.{move_elevator}
use kernal_elevator.Elevator.Scheduler.{
  Answers, has_work, must_move, rest_idle, pause, go_offline, set_off, scheduler_round, Pc, top,
  scheduler_step,
}
use kernal_elevator.Elevator.Invariant.Defs.{Inv}
use kernal_elevator.Elevator.Invariant.Boarding.{unload_passengers-Inv}
use kernal_elevator.Elevator.Invariant.Scheduler.{load_if_room-Inv}

-- So many pieces of the loop, one after the other, with the same answers.
unfoldable pub pieces : ℕ → Answers → Pc → Globals → Option (Pc × Globals)
pieces zero a pc g = some (pc, g)
pieces (suc n) a pc g = do (pc', h) ← scheduler_step a pc g; pieces n a pc' h

working :
    (a : Answers) (g : Globals)
    → Inv g
    → a.should_stop ≡ false
    → has_work g ≡ true
    → (n : ℕ) × (h : Globals) × (pieces n a top g ≡ some (top, h)) × (scheduler_round a g ≡ some h)
unfolding pieces scheduler_step scheduler_round
working a g v s w =
    let (m, g1, e1, v1) = unload_passengers-Inv a.unload_locked g v in
    let (n, g2, e2, _) = load_if_room-Inv a.load_locked g1 v1 in
    elim (Bool-cases (must_move (pause m n g2))) [
      | inl e ↦ (
        6,
        move_elevator (set_off (pause m n g2)),
        rw (s, w, e1, e2, e) refl,
        rw (w, e1, e2, e) refl,
      )
      | inr e ↦ (5, go_offline (pause m n g2), rw (s, w, e1, e2, e) refl, rw (w, e1, e2, e) refl)
    ]

-- From a state with the invariant, a turn of the loop that is not preempted and not told to stop
-- ends in the state in which its pieces, run one after the other from the top of the loop with
-- the same answers, come back to the top.
pub round-pieces :
    (a : Answers) (g : Globals)
    → Inv g
    → a.should_stop ≡ false
    → (n : ℕ) × (h : Globals) × (pieces n a top g ≡ some (top, h)) × (scheduler_round a g ≡ some h)
unfolding pieces scheduler_step scheduler_round
round-pieces a g v s = elim (Bool-cases (has_work g)) [
  | inl w ↦ working a g v s w
  | inr w ↦ (1, rest_idle g, rw (s, w) refl, rw w refl)
]
