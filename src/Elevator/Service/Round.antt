-- ===== src/Elevator/Service/Round.antt =====
-- A turn with every lock granted, in full: who is where after it.
use kernal_elevator.Base.{
  ℕ, suc, ◌+◌, ◌-◌, ◌≤◌, ◌<◌, ◌≡◌, refl, ◌∙◌, ap, true, some, List, ◌++◌, arith, length, get_elem?,
  set, if◌then◌else◌, ◌==◌, slt, incr, slt_small,
}
use kernal_elevator.Elevator.State.{Passenger, Globals, capacity}
use kernal_elevator.Elevator.Keeps.{pause-holdings}
use kernal_elevator.Elevator.Boarding.Spec.{arrivals, riders, boarders, stayers, repeat, flag}
use kernal_elevator.Elevator.Motion.{move_elevator}
use kernal_elevator.Elevator.Scheduler.{
  has_work, must_move, load_if_room, pause, go_offline, set_off, scheduler_round,
}
use kernal_elevator.Elevator.Invariant.Defs.{Inv}
use kernal_elevator.Elevator.Invariant.Boarding.{
  gone, unloaded_at, unload_passengers_lem, unloaded_at-Inv,
}
use kernal_elevator.Elevator.Invariant.Loading.{
  boarding, loaded_at, load_passengers_lem, loaded_at-Inv,
}
use kernal_elevator.Elevator.Invariant.Motion.{position}
use kernal_elevator.Elevator.Invariant.Scheduler.{pause-Inv}
use kernal_elevator.Elevator.Service.Turn.{willing}

-- The load and the status once those who arrive have left.
abbrev pub load_left : Globals → ℕ
load_left g = g.loads - length (arrivals g.current_floor g.onboard)

abbrev pub status_left : Globals → ℕ
status_left g = if load_left g == 0 then 0 else g.status

-- The state in which the turn decides whether to move.
pub record Round (g : Globals) (i : ℕ) (queue : List Passenger) : Type 0 where
  pub at : Globals
  pub inv : Inv at
  pub onboard :
      at.onboard ≡ riders g.current_floor g.onboard ++ boarders (load_left g) (status_left g) queue
  pub loads : at.loads ≡ load_left g + length (boarders (load_left g) (status_left g) queue)
  pub waiting_list :
      at.waiting_list ≡ set g.waiting_list i (stayers (load_left g) (status_left g) queue)
  pub serviced : at.serviced ≡ repeat incr (length (arrivals g.current_floor g.onboard)) g.serviced
  pub place : position at ≡ position g
  pub time : at.clock ≤ g.clock + 1
  pub runs :
      scheduler_round willing g
      ≡ some (if must_move at then move_elevator (set_off at) else go_offline at)

unloaded_at-fields :
    (g : Globals)
    → let u = unloaded_at g in
      (u.onboard ≡ riders g.current_floor g.onboard)
      × (u.loads ≡ load_left g)
      × (u.status ≡ status_left g)
      × (u.waiting_list ≡ g.waiting_list)
      × (u.serviced ≡ repeat incr (length (gone g)) g.serviced)
      × (position u ≡ position g)
      × (u.clock ≡ g.clock)
unfolding unloaded_at
unloaded_at-fields g = ground arith

pause-place :
    (m n : ℕ) (g : Globals)
    → (position (pause m n g) ≡ position g) × ((pause m n g).clock ≤ g.clock + 1)
unfolding pause
pause-place m n g = ground arith

loads_here :
    (u : Globals) (i n : ℕ) (queue : List Passenger)
    → Inv u
    → u.loads ≡ n
    → n < capacity
    → u.current_floor ≡ suc i
    → get_elem? u.waiting_list i ≡ some queue
    → load_if_room true u ≡ some (flag (boarding u i queue) 0, loaded_at u i queue)
unfolding load_if_room
loads_here u i n queue w l r at q = rw room (load_passengers_lem u i queue w at q)
  where
    room : slt u.loads capacity ≡ true
    room = ground (arith, slt_small u.loads capacity)

round_runs :
    (g k : Globals) (n : ℕ)
    → has_work g ≡ true
    → Inv g
    → load_if_room true (unloaded_at g) ≡ some (n, k)
    → let h = pause (flag (gone g) 0) n k in
      scheduler_round willing g
      ≡ some (if must_move h then move_elevator (set_off h) else go_offline h)
unfolding scheduler_round
round_runs g k n work v e = rw (work, unload_passengers_lem g v, e) refl

pub round_lem :
    (g : Globals) (i : ℕ) (queue : List Passenger)
    → Inv g
    → has_work g ≡ true
    → load_left g < capacity
    → g.current_floor ≡ suc i
    → get_elem? g.waiting_list i ≡ some queue
    → Round g i queue
round_lem g i queue v work room at q =
    let u = unloaded_at g in
    let w = unloaded_at-Inv g v in
    let (eo, el, es, ew, ec, ep, et) = unloaded_at-fields g in
    let here : u.current_floor ≡ suc i = ap (λ x. x.current) ep ∙ at in
    let waits : get_elem? u.waiting_list i ≡ some queue = ap (λ qs. get_elem? qs i) ew ∙ q in
    let k = loaded_at u i queue in
    let n = flag (boarding u i queue) 0 in
    let m = flag (gone g) 0 in
    let hold = pause-holdings k m n in
    let (pp, pt) = pause-place m n k in
    record {
      at = pause m n k;
      inv = pause-Inv m n k (loaded_at-Inv u i queue w here waits);
      onboard = ap (λ x. x.0) hold ∙ cc (eo, el, es);
      loads = ap (λ x. x.1) hold ∙ cc (el, es);
      waiting_list = ap (λ x. x.2) hold ∙ cc (el, es, ew);
      serviced = ap (λ x. x.3) hold ∙ ec;
      place = pp ∙ ep;
      time = omega (arith, pt);
      runs = round_runs g k n work v (loads_here u i (load_left g) queue w el room here waits);
    }
