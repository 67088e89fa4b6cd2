-- ===== src/Elevator/Service/Turn.antt =====
-- One turn of the scheduler's loop that has work, gets the mutex and is not preempted.
use kernal_elevator.Base.{
  ℕ, suc, ◌+◌, ◌≤◌, ◌≡◌, refl, sym, ◌∙◌, ap, ◌≢◌, inl, inr, true, false, some, List, ◌++◌, arith,
  Bool-cases, append-nil, get_elem?, get_elem?-set_ne, ◌==◌, ◌&&◌, slt,
}
use kernal_elevator.Elevator.State.{Passenger, Globals, capacity, set_state, ssleep}
use kernal_elevator.Elevator.Boarding.Spec.{riders, flag}
use kernal_elevator.Elevator.Motion.{move_elevator}
use kernal_elevator.Elevator.Scheduler.{
  Answers, has_work, must_move, load_if_room, pause, set_off, scheduler_round,
}
use kernal_elevator.Elevator.Invariant.Defs.{Inv}
use kernal_elevator.Elevator.Invariant.Boarding.{
  gone, unloaded_at, unload_passengers_lem, unloaded_at-Inv,
}
use kernal_elevator.Elevator.Invariant.Loading.{
  boarding, queue_here, loaded_at, load_passengers_lem, loaded_at-Inv,
}
use kernal_elevator.Elevator.Invariant.Motion.{Position, position, sweep, move_elevator_lem, moved}
use kernal_elevator.Elevator.Invariant.Scheduler.{
  pause-Inv, set_off_lem, set_off-Inv, move_elevator-Inv,
}

-- Every lock is granted, and nobody asks the thread to stop.
abbrev pub willing : Answers
willing = record { should_stop = false; unload_locked = true; load_locked = true }

-- What the stop at a floor makes of a state: those who do not leave stay in place, some board behind
-- them, and the other floors' queues are as they were.
pub record Stop (g h : Globals) : Type 0 where
  pub new : List Passenger
  pub onboard : h.onboard ≡ riders g.current_floor g.onboard ++ new
  pub place : position h ≡ position g
  pub time : h.clock ≤ g.clock + 1
  pub shrinks : h.live ≤ g.live
  pub elsewhere :
      (j : ℕ) → g.current_floor ≢ suc j → get_elem? h.waiting_list j ≡ get_elem? g.waiting_list j

unloaded_at-fields :
    (g : Globals)
    → ((unloaded_at g).onboard ≡ riders g.current_floor g.onboard)
      × (position (unloaded_at g) ≡ position g)
      × ((unloaded_at g).clock ≡ g.clock)
      × ((unloaded_at g).waiting_list ≡ g.waiting_list)
      × ((unloaded_at g).live ≤ g.live)
unfolding unloaded_at
unloaded_at-fields g = ground arith

pause-Stop : (g h : Globals) (m n : ℕ) → Stop g h → h.clock ≡ g.clock → Stop g (pause m n h)
unfolding pause
pause-Stop g h m n s c = elim (Bool-cases (m == 0 && n == 0)) [
  | inl e ↦ rw (e, pause) s
  | inr e ↦
      rw (e, pause)
        (record {
          new = s.new;
          onboard = s.onboard;
          place = s.place;
          time = omega arith;
          shrinks = s.shrinks;
          elsewhere = s.elsewhere;
        })
]

load_if_room-Stop :
    (g : Globals)
    → Inv g
    → (n : ℕ) × (h : Globals) × (load_if_room true (unloaded_at g) ≡ some (n, h))
      × Inv h
      × Stop g h
      × (h.clock ≡ g.clock)
unfolding load_if_room
load_if_room-Stop g v = elim (Bool-cases (slt u.loads capacity)) [
  | inl e ↦
      let (i, queue, at, q) = queue_here u w in
      (
        flag (boarding u i queue) 0,
        loaded_at u i queue,
        rw e (load_passengers_lem u i queue w at q),
        loaded_at-Inv u i queue w at q,
        record {
          new = boarding u i queue;
          onboard = ap (λ ps. ps ++ boarding u i queue) f.0;
          place = f.1;
          time = omega (arith, f.2);
          shrinks = f.4;
          elsewhere = λ j ne.
              get_elem?-set_ne u.waiting_list i j _
                (λ ij. ne (ap (λ (p : Position). p.current) (sym f.1) ∙ at ∙ ap suc ij))
              ∙ ap (λ qs. get_elem? qs j) f.3;
        },
        f.2,
      )
  | inr e ↦ (
    0,
    u,
    rw e refl,
    w,
    record {
      new = List.[];
      onboard = f.0 ∙ sym (append-nil _);
      place = f.1;
      time = omega (arith, f.2);
      shrinks = f.4;
      elsewhere = λ j ne. ap (λ qs. get_elem? qs j) f.3;
    },
    f.2,
  )
]
  where
    u : Globals
    u = unloaded_at g

    w : Inv u
    w = unloaded_at-Inv g v

    f :
        (u.onboard ≡ riders g.current_floor g.onboard)
        × (position u ≡ position g)
        × (u.clock ≡ g.clock)
        × (u.waiting_list ≡ g.waiting_list)
        × (u.live ≤ g.live)
    f = unloaded_at-fields g

-- The turn, up to the decision to move, and then the move.
pub record Turn (g : Globals) : Type 0 where
  pub stop : Globals
  pub inv : Inv stop
  pub served : Stop g stop
  pub runs : must_move stop ≡ true → scheduler_round willing g ≡ some (move_elevator (set_off stop))

pub turn : (g : Globals) → Inv g → has_work g ≡ true → Turn g
unfolding scheduler_round
turn g v work =
    let (n, h, e, w, s, c) = load_if_room-Stop g v in
    let m : ℕ = flag (gone g) 0 in
    record {
      stop = pause m n h;
      inv = pause-Inv m n h w;
      served = pause-Stop g h m n s c;
      runs = λ d. rw (work, unload_passengers_lem g v, e, d) refl;
    }

-- The move, once the car has to.
pub move_lem :
    (h : Globals)
    → Inv h
    → let k = move_elevator (set_off h) in
      Inv k
      × (position k ≡ sweep (position h))
      × (k.onboard ≡ h.onboard)
      × (k.waiting_list ≡ h.waiting_list)
      × (k.clock ≡ h.clock + 2)
      × (k.live ≡ h.live)
unfolding set_state ssleep
move_lem h v =
    let (w, k) = set_off-Inv h v in
    let e = move_elevator_lem (set_off h) w.track k ∙ ap moved (set_off_lem h v) in
    (
      move_elevator-Inv (set_off h) w k,
      ap position e,
      ap (λ (g : Globals). g.onboard) e,
      ap (λ (g : Globals). g.waiting_list) e,
      ap (λ (g : Globals). g.clock) e,
      ap (λ (g : Globals). g.live) e,
    )
