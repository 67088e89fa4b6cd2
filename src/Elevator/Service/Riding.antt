-- ===== src/Elevator/Service/Riding.antt =====
-- The car with one passenger aboard and nobody in the building.
use kernal_elevator.Base.{
  ℕ, suc, ◌+◌, ◌-◌, ◌≤◌, ◌≡◌, refl, sym, ◌∙◌, ap, ◌≢◌, true, false, some, List, [], ◌∷◌, arith,
  length, get_elem?, incr, append-nil,
}
use kernal_elevator.Elevator.State.{Passenger, Globals}
use kernal_elevator.Elevator.Keeps.{go_offline-holdings}
use kernal_elevator.Elevator.Queues.{total, total-set, length-le-total}
use kernal_elevator.Elevator.Boarding.Spec.{arrivals, riders, boarders, stayers, repeat}
use kernal_elevator.Elevator.Scheduler.{has_work, must_move, go_offline, scheduler_round}
use kernal_elevator.Elevator.Invariant.Defs.{Inv}
use kernal_elevator.Elevator.Invariant.Loading.{queue_here}
use kernal_elevator.Elevator.Invariant.Motion.{Position}
use kernal_elevator.Elevator.Service.Turn.{willing}
use kernal_elevator.Elevator.Service.Round.{Round, load_left, round_lem}
use kernal_elevator.Elevator.Service.Reaches.{MovesOn}
use kernal_elevator.Elevator.Service.Journey.{Rides, nil_of_short, move_on, must_move_lem}

module _ (p : Passenger) (n : ℕ) where
  one_rider :
      (floor : ℕ)
      → p.destination_floor ≢ floor
      → (riders floor (p ∷ []) ≡ p ∷ []) × (arrivals floor (p ∷ []) ≡ [])
  unfolding riders arrivals
  one_rider floor ne = ground arith

  one_arrival :
      (floor : ℕ)
      → p.destination_floor ≡ floor
      → (riders floor (p ∷ []) ≡ []) × (arrivals floor (p ∷ []) ≡ p ∷ [])
  unfolding riders arrivals
  one_arrival floor e = ground arith

  has_work_riding : (g : Globals) → Rides p n g → has_work g ≡ true
  unfolding has_work
  has_work_riding g w = ground (arith, w.aboard)

  nobody_here :
      (g : Globals)
      → Inv g
      → Rides p n g
      → (j : ℕ) × (g.current_floor ≡ suc j) × (get_elem? g.waiting_list j ≡ some [])
  nobody_here g v w =
      let (j, queue, at, q) = queue_here g v in
      let none_here : queue ≡ [] =
        nil_of_short queue (omega (arith, length-le-total g.waiting_list j q, w.nobody)) in
      (j, at, q ∙ ap some none_here)

  -- What a round leaves of the car on a floor where nobody waits.
  module _ (g : Globals) (j : ℕ) (r : Round g j []) (w : Rides p n g) (ps gone' : List Passenger)
      (stay : riders g.current_floor (p ∷ []) ≡ ps) (go : arrivals g.current_floor (p ∷ []) ≡ gone')
      (q : get_elem? g.waiting_list j ≡ some []) where
    rider_stop :
        (r.at.onboard ≡ ps)
        × (r.at.loads ≡ 1 - length gone')
        × (total r.at.waiting_list ≡ 0)
        × (r.at.serviced ≡ repeat incr (length gone') n)
    unfolding boarders stayers
    rider_stop =
        let left : arrivals g.current_floor g.onboard ≡ gone' =
          ap (arrivals g.current_floor) w.aboard ∙ go in
        (
          r.onboard ∙ append-nil _ ∙ ap (riders g.current_floor) w.aboard ∙ stay,
          r.loads ∙ omega (arith, ap length left, w.load),
          ap total r.waiting_list ∙ omega (arith, total-set g.waiting_list j [] q, w.nobody),
          r.serviced
              ∙ ap (λ ls. repeat incr (length ls) g.serviced) left
              ∙ ap (repeat incr (length gone')) w.served,
        )

  pub ride_step :
      (g : Globals)
      → Inv g
      → Rides p n g
      → g.current_floor ≢ p.destination_floor
      → MovesOn g (Rides p n)
  unfolding repeat
  ride_step g v w ne =
      let (j, at, q) = nobody_here g v w in
      let (stay, go) = one_rider g.current_floor (λ e. ne (sym e)) in
      let left : load_left g ≡ 1 =
        omega
          (arith, ap (λ ps. length (arrivals g.current_floor ps)) w.aboard, ap length go, w.load) in
      let r = round_lem g j [] v (has_work_riding g w) (omega (arith, left)) at q in
      let (eo, el, ew, es) = rider_stop g j r w (p ∷ []) [] stay go q in
      move_on g j [] (Rides p n) r (must_move_lem r.at r.inv el) λ h e. record {
        aboard = ap (λ x. x.0) e ∙ eo;
        load = ap (λ x. x.1) e ∙ el;
        nobody = ap (λ x. total x.2) e ∙ ew;
        served = ap (λ x. x.3) e ∙ es;
      }

  must_stay : (g : Globals) → Inv g → g.loads ≡ 0 → total g.waiting_list ≡ 0 → must_move g ≡ false
  unfolding must_move
  must_stay g v l t = ground arith

  go_offline-clock : (g : Globals) → (go_offline g).clock ≡ g.clock
  unfolding go_offline
  go_offline-clock g = ground arith

  go_offline-current_floor : (g : Globals) → (go_offline g).current_floor ≡ g.current_floor
  unfolding go_offline
  go_offline-current_floor g = ground arith

  -- The last stop, at which he leaves.
  pub leave_off :
      (g : Globals)
      → Inv g
      → Rides p n g
      → g.current_floor ≡ p.destination_floor
      → (h : Globals) × (scheduler_round willing g ≡ some h)
        × (h.onboard ≡ [])
        × (total h.waiting_list ≡ 0)
        × (h.serviced ≡ incr n)
        × (h.clock ≤ g.clock + 3)
        × (h.current_floor ≡ g.current_floor)
  unfolding repeat
  leave_off g v w here =
      let (j, at, q) = nobody_here g v w in
      let (stay, go) = one_arrival g.current_floor (sym here) in
      let left : load_left g ≡ 0 =
        omega
          (arith, ap (λ ps. length (arrivals g.current_floor ps)) w.aboard, ap length go, w.load) in
      let r = round_lem g j [] v (has_work_riding g w) (omega (arith, left)) at q in
      let (eo, el, ew, es) = rider_stop g j r w [] (p ∷ []) stay go q in
      let hold = go_offline-holdings r.at in
      (
        go_offline r.at,
        r.runs ∙ ap some (rw (must_stay r.at r.inv el ew) refl),
        ap (λ x. x.0) hold ∙ eo,
        ap (λ x. total x.2) hold ∙ ew,
        ap (λ x. x.3) hold ∙ es,
        omega (arith, go_offline-clock r.at, r.time),
        go_offline-current_floor r.at ∙ ap (λ (x : Position). x.current) r.place,
      )
