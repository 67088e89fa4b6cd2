-- ===== src/Elevator/Service/Pickup.antt =====
-- part3/elevator.c: the turn of the scheduler that follows a stop.
use kernal_elevator.Base.{
  ℕ, suc, ◌<◌, ◌≡◌, refl, ap, ◌∙◌, ◌≢◌, true, some, List, [], ◌++◌, arith, length, get_elem?,
  get_elem?-set_self, ◌^◌, Bool-cases, inl, inr, if◌then◌else◌,
}
use kernal_elevator.Elevator.State.{Passenger, Globals, capacity}
use kernal_elevator.Elevator.Queues.{length-le-total}
use kernal_elevator.Elevator.Keeps.{
  holdings, move_elevator-holdings, set_off-holdings, go_offline-holdings,
}
use kernal_elevator.Elevator.Calls.{stop_elevator}
use kernal_elevator.Elevator.Boarding.Spec.{arrivals, riders, boarders, stayers}
use kernal_elevator.Elevator.Motion.{move_elevator}
use kernal_elevator.Elevator.Scheduler.{has_work, must_move, go_offline, set_off, scheduler_round}
use kernal_elevator.Elevator.Invariant.Defs.{Inv}
use kernal_elevator.Elevator.Contract.Stops.{stopped_at, stop_removes_aboard}
use kernal_elevator.Elevator.Service.Turn.{willing}
use kernal_elevator.Elevator.Service.Round.{load_left, status_left, round_lem}

stopped_at-Inv : (g : Globals) → Inv g → Inv (stopped_at g)
stopped_at-Inv g v = record {
  track = v.track;
  cabin = record {
    loads_le = v.cabin.loads_le;
    aboard = omega arith;
    status_le = v.cabin.status_le;
    clean = λ _. tt;
    riders = tt;
  };
  empty_clean = v.empty_clean;
  queued = v.queued;
  blocks = omega arith;
}

-- Nobody gets off a car that a stop has emptied.
nobody_off :
    (g : Globals)
    → Inv g
    → (load_left (stopped_at g) ≡ g.loads)
      × (status_left (stopped_at g) ≡ g.status)
      × (riders g.current_floor [] ≡ [])
unfolding arrivals riders
nobody_off g v = (omega arith, ground (arith, v.empty_clean), refl)

has_work_stopped :
    (g : Globals) (i : ℕ) (queue : List Passenger)
    → Inv g
    → g.live < 2 ^ 32
    → get_elem? g.waiting_list i ≡ some queue
    → 0 < length queue
    → has_work (stopped_at g) ≡ true
unfolding has_work
has_work_stopped g i queue v few q somebody =
    ground (arith, v.queued.waiting, v.blocks, length-le-total g.waiting_list i q)

-- How a turn ends, nobody gets in or out.
end_holdings :
    (g : Globals)
    → holdings (if must_move g then move_elevator (set_off g) else go_offline g) ≡ holdings g
end_holdings g = elim (Bool-cases (must_move g)) [
  | inl e ↦ rw e (move_elevator-holdings (set_off g) ∙ set_off-holdings g)
  | inr e ↦ rw e (go_offline-holdings g)
]

-- From a state with the invariant, fewer than 2 ^ 32 live passengers, room in the car and
-- somebody waiting at the floor where it stands, while the elevator is started and not
-- deactivating, a stop with the lock returns 0 and leaves the car empty, `started` cleared and
-- `deactiving` set. The turn of the scheduler that follows, if it gets the mutex, is not
-- preempted and not told to stop, still loads at that floor as if there had been no stop: aboard
-- after it are, in their order, exactly those of the queue who find room beside the `loads` that
-- the stop left and who are zombies or find the car not infected; the others are the queue
-- afterwards.
pub picks_up_after_stop :
    (g : Globals) (i : ℕ) (queue : List Passenger)
    → Inv g
    → g.live < 2 ^ 32
    → g.started ≢ 0
    → g.deactiving ≡ 0
    → g.loads < capacity
    → g.current_floor ≡ suc i
    → get_elem? g.waiting_list i ≡ some queue
    → 0 < length queue
    → (h : Globals) × (k : Globals) × (stop_elevator true g ≡ some (0, h))
      × (h.started ≡ 0)
      × (h.deactiving ≡ 1)
      × (h.onboard ≡ [])
      × (scheduler_round willing h ≡ some k)
      × (k.onboard ≡ boarders g.loads g.status queue)
      × (get_elem? k.waiting_list i ≡ some (stayers g.loads g.status queue))
picks_up_after_stop g i queue v few s d room at q somebody =
    let (load, status, none_left) = nobody_off g v in
    let r =
      round_lem (stopped_at g) i queue (stopped_at-Inv g v)
        (has_work_stopped g i queue v few q somebody) (omega (arith, load)) at q in
    let hold = end_holdings r.at in
    (
      stopped_at g,
      _,
      stop_removes_aboard g s d,
      refl,
      refl,
      refl,
      r.runs,
      ap (λ x. x.0) hold
          ∙ r.onboard
          ∙ ap (λ ps. ps ++ boarders (load_left (stopped_at g)) (status_left (stopped_at g)) queue)
              none_left
          ∙ cc (load, status),
      ap (λ x. get_elem? x.2 i) hold
          ∙ ap (λ qs. get_elem? qs i) r.waiting_list
          ∙ get_elem?-set_self g.waiting_list i _ (omega arith)
          ∙ cc (load, status),
    )
