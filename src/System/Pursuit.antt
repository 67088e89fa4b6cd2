-- ===== src/System/Pursuit.antt =====
-- One more piece of the scheduler's loop on the way to a floor.
use native.Mathlib.Decide.{ℕ_discrete}
use kernal_elevator.Base.{
  ℕ, suc, ◌-◌, ◌≡◌, refl, sym, ap, subst, ◌∙◌, ◌⊎◌, inl, inr, some, some_unique, arith,
}
use kernal_elevator.Elevator.State.{Globals}
use kernal_elevator.Elevator.Boarding.{unload_passengers}
use kernal_elevator.Elevator.Motion.{move_elevator}
use kernal_elevator.Elevator.Scheduler.{
  Answers, load_if_room, pause, set_off, Pc, top, unloading, boarding, pausing, deciding, moving,
  exited, scheduler_step,
}
use kernal_elevator.Elevator.Keeps.{pause-holdings, set_off-holdings, move_elevator-holdings}
use kernal_elevator.Elevator.Invariant.Defs.{Inv}
use kernal_elevator.Elevator.Invariant.Boarding.{unload_passengers-Inv}
use kernal_elevator.Elevator.Invariant.Motion.{Position, position, move_elevator_lem}
use kernal_elevator.Elevator.Invariant.Scheduler.{Knows, load_if_room-Inv}
use kernal_elevator.System.Pieces.{unloading_step, boarding_step}
use kernal_elevator.Elevator.Service.Sweep.{moves}
use kernal_elevator.System.Way.{
  unload-position, load-position, pause-position, set_off-position, ahead, IsAhead, some_way,
  moves-pred, IsPursuit, Underway, IsClear,
}

module _ (floor : ℕ) (Ok : Answers → Globals → Type 0) (P Clear : Globals → Type 0)
    (Done : Pc → Globals → Type 0) (w : IsPursuit floor Ok P Clear Done) where
  abbrev Way : ℕ → Pc → Globals → Type 0
  Way = Underway floor Ok P Clear Done

  abbrev Next : ℕ → Pc × Globals → Type 0
  Next used r = Done r.0 r.1 ⊎ Way (suc used) r.0 r.1

  -- One more piece, which does not move the car.
  onward :
      (used : ℕ) (pc pc' : Pc) (g h : Globals) (u : Way used pc g)
      → position h ≡ position g
      → IsAhead pc' u.k
      → suc (ahead pc' u.k) ≡ ahead pc u.k
      → P h
      → IsClear floor Ok P Clear Done pc' h
      → Next used (pc', h)
  onward used pc pc' g h u e r c p z = inr (record {
    k = u.k;
    path = ap (λ q. (moves u.k q).current) e ∙ u.path;
    round = r;
    in_time = omega (arith, u.in_time);
    fact = p;
    clear = z;
  })

  top-Next :
      (a : Answers) (g : Globals) (used : ℕ)
      → Inv g
      → Ok a g
      → Way used top g
      → (scheduler_step a top g ≡ some (unloading, g)) × Next used (unloading, g)
  unfolding scheduler_step
  top-Next a g used v ok u = (
    rw (w.awake a g ok, w.works a g v ok u.fact) refl,
    onward used top unloading g g u refl tt (omega arith) u.fact tt,
  )

  unloading-Next :
      (a : Answers) (g h : Globals) (n used : ℕ)
      → Inv g
      → Ok a g
      → Way used unloading g
      → unload_passengers a.unload_locked g ≡ some (n, h)
      → Next used (boarding n, h)
  unloading-Next a g h n used v ok u f = elim (ℕ_discrete g.current_floor floor) [
    | yes here ↦ inl (w.serves a g h n v ok u.fact here f)
    | no ne ↦
        let (p, c) = w.passes a.unload_locked g h n v u.fact ne f in
        onward used unloading (boarding n) g h u (unload-position g h n a.unload_locked f)
          (some_way floor g u.k u.path ne) (omega arith) p c
  ]

  boarding-Next :
      (a : Answers) (g h : Globals) (m n used : ℕ)
      → Inv g
      → Way used (boarding m) g
      → load_if_room a.load_locked g ≡ some (n, h)
      → Next used (pausing m n, h)
  boarding-Next a g h m n used v u f =
      onward used (boarding m) (pausing m n) g h u (load-position g h n a.load_locked f) u.round
        (omega (arith, u.round)) (w.boards a.load_locked g h n v u.fact u.clear f) tt

  pausing-Next :
      (g : Globals) (m n used : ℕ) → Way used (pausing m n) g → Next used (deciding, pause m n g)
  pausing-Next g m n used u =
      onward used (pausing m n) deciding g (pause m n g) u (pause-position g m n) u.round
        (omega (arith, u.round)) (w.same g (pause m n g) (pause-holdings g m n) u.fact) tt

  deciding-Next :
      (a : Answers) (g : Globals) (used : ℕ)
      → Inv g
      → Ok a g
      → Way used deciding g
      → (scheduler_step a deciding g ≡ some (moving, set_off g)) × Next used (moving, set_off g)
  unfolding scheduler_step
  deciding-Next a g used v ok u = (
    rw (w.must a g v ok u.fact) refl,
    onward used deciding moving g (set_off g) u (set_off-position g) u.round
        (omega (arith, u.round)) (w.same g (set_off g) (set_off-holdings g) u.fact) tt,
  )

  moving-Next :
      (g : Globals) (used : ℕ)
      → Inv g
      → Knows moving g
      → Way used moving g
      → Next used (top, move_elevator g)
  moving-Next g used v knows u = inr (record {
    k = u.k - 1;
    path =
        ap (λ q. (moves (u.k - 1) q).current) (ap position (move_elevator_lem g v.track knows))
        ∙ ap (λ (q : Position). q.current) (sym (moves-pred u.k (position g) u.round))
        ∙ u.path;
    round = tt;
    in_time = omega (arith, u.in_time, u.round);
    fact = w.same g (move_elevator g) (move_elevator-holdings g) u.fact;
    clear = tt;
  })

  -- One piece of the loop: the floor has been served, or the thread is still on its way.
  pub piece-Next :
      (a : Answers) (pc pc' : Pc) (g h : Globals) (used : ℕ)
      → Inv g
      → Knows pc g
      → Ok a g
      → Way used pc g
      → scheduler_step a pc g ≡ some (pc', h)
      → Next used (pc', h)
  unfolding scheduler_step
  piece-Next a top pc' g h used v knows ok u e =
      let (f, n) = top-Next a g used v ok u in subst (Next used) (some_unique f e) n
  piece-Next a unloading pc' g h used v knows ok u e =
      let (n, k, f, _) = unload_passengers-Inv a.unload_locked g v in
      subst (Next used) (some_unique (unloading_step a g k n f) e)
        (unloading-Next a g k n used v ok u f)
  piece-Next a (boarding m) pc' g h used v knows ok u e =
      let (n, k, f, _) = load_if_room-Inv a.load_locked g v in
      subst (Next used) (some_unique (boarding_step a m g k n f) e)
        (boarding-Next a g k m n used v u f)
  piece-Next a (pausing m n) pc' g h used v knows ok u e =
      subst (Next used) (some_unique refl e) (pausing-Next g m n used u)
  piece-Next a deciding pc' g h used v knows ok u e =
      let (f, n) = deciding-Next a g used v ok u in subst (Next used) (some_unique f e) n
  piece-Next a moving pc' g h used v knows ok u e =
      subst (Next used) (some_unique refl e) (moving-Next g used v knows u)
  piece-Next a exited pc' g h used v knows ok u e = absurd u.round
