-- ===== src/Elevator/Service/Journey.antt =====
-- A passenger who waits in a building that is empty but for him.
use kernal_elevator.Base.{
  ℕ, zero, suc, ◌+◌, ◌≤◌, ◌<◌, ◌≡◌, refl, sym, ◌∙◌, ap, ◌≢◌, true, some, List, [], ◌∷◌, arith,
  length, get_elem?, get_elem?-set_ne, set, incr,
}
use kernal_elevator.Elevator.State.{Passenger, Globals, floors}
use kernal_elevator.Elevator.Keeps.{holdings, move_elevator-holdings, set_off-holdings}
use kernal_elevator.Elevator.Queues.{Residents-get, total, total-set, length-le-total}
use kernal_elevator.Elevator.Boarding.Spec.{arrivals, riders, boarders, stayers, repeat}
use kernal_elevator.Elevator.Motion.{move_elevator}
use kernal_elevator.Elevator.Scheduler.{has_work, must_move, set_off}
use kernal_elevator.Elevator.Invariant.Defs.{Inv}
use kernal_elevator.Elevator.Invariant.Loading.{queue_here}
use kernal_elevator.Elevator.Invariant.Motion.{sweep}
use kernal_elevator.Elevator.Service.Turn.{move_lem}
use kernal_elevator.Elevator.Service.Round.{Round, load_left, status_left, round_lem}
use kernal_elevator.Elevator.Service.Reaches.{MovesOn}

-- The passenger waits in a building that is empty but for him; `n` have been served before.
pub record Waits (i : ℕ) (p : Passenger) (n : ℕ) (g : Globals) : Type 0 where
  pub empty : g.onboard ≡ []
  pub no_load : g.loads ≡ 0
  pub here : get_elem? g.waiting_list i ≡ some (p ∷ [])
  pub alone : total g.waiting_list ≡ 1
  pub served : g.serviced ≡ n

-- He rides in it.
pub record Rides (p : Passenger) (n : ℕ) (g : Globals) : Type 0 where
  pub aboard : g.onboard ≡ p ∷ []
  pub load : g.loads ≡ 1
  pub nobody : total g.waiting_list ≡ 0
  pub served : g.serviced ≡ n

length-two-le-total :
    (qs : List (List Passenger)) (i j : ℕ) {q r : List Passenger}
    → get_elem? qs i ≡ some q
    → get_elem? qs j ≡ some r
    → i ≢ j
    → length q + length r ≤ total qs
length-two-le-total [] i j e f ne = cc
length-two-le-total (x ∷ qs) zero zero e f ne = absurd (ne refl)
length-two-le-total (x ∷ qs) zero (suc j) {q} {r} e f ne = ground (arith, length-le-total qs j f)
length-two-le-total (x ∷ qs) (suc i) zero {q} {r} e f ne = ground (arith, length-le-total qs i e)
length-two-le-total (x ∷ qs) (suc i) (suc j) e f ne =
    omega (arith, length-two-le-total qs i j e f (λ h. ne (ap suc h)))

pub nil_of_short : (q : List Passenger) → length q ≤ 0 → q ≡ []
nil_of_short [] h = refl
nil_of_short (x ∷ q) h = absurd (omega arith)

-- The move after a stop at which it has to move on.
pub move_on :
    (g : Globals) (i : ℕ) (queue : List Passenger) (Q : Globals → Type 0) (r : Round g i queue)
    → must_move r.at ≡ true
    → ((h : Globals) → holdings h ≡ holdings r.at → Q h)
    → MovesOn g Q
move_on g i queue Q r m q =
    let (w, place, _, _, clock, _) = move_lem r.at r.inv in
    record {
      after = move_elevator (set_off r.at);
      runs = r.runs ∙ ap some (rw m refl);
      inv = w;
      keeps =
          q (move_elevator (set_off r.at))
            (move_elevator-holdings (set_off r.at) ∙ set_off-holdings r.at);
      place = place ∙ ap sweep r.place;
      time = omega (arith, clock, r.time);
    }

pub must_move_lem : (g : Globals) → Inv g → (g.loads ≡ 1) → must_move g ≡ true
unfolding must_move
must_move_lem g v h = ground arith

must_move_waiting :
    (g : Globals) → Inv g → total g.waiting_list ≡ 1 → (must_move g ≡ true) × (has_work g ≡ true)
unfolding must_move has_work
must_move_waiting g v h = ground arith

boards_of_kind :
    (p : Passenger) → p.type ≤ 1 → (boarders 0 0 (p ∷ []) ≡ p ∷ []) × (stayers 0 0 (p ∷ []) ≡ [])
unfolding boarders stayers
boards_of_kind p h = ground arith

-- What a round leaves of an empty car, or of one with a single passenger who is not at his floor.
module _ (g : Globals) (i : ℕ) (queue : List Passenger) (r : Round g i queue) where
  empty_stop :
      g.onboard ≡ []
      → g.loads ≡ 0
      → (r.at.onboard ≡ boarders 0 0 queue)
        × (r.at.loads ≡ length (boarders 0 0 queue))
        × (r.at.waiting_list ≡ set g.waiting_list i (stayers 0 0 queue))
        × (r.at.serviced ≡ g.serviced)
  unfolding riders arrivals repeat
  empty_stop e l =
      let a : arrivals g.current_floor g.onboard ≡ [] = ap (arrivals g.current_floor) e in
      let left : load_left g ≡ 0 = omega (arith, l) in
      let clean : status_left g ≡ 0 = ground (arith, left) in
      (
        r.onboard ∙ cc (ap (riders g.current_floor) e, left, clean),
        r.loads
            ∙ omega (
              arith,
              left,
              ap (λ s. length (boarders (load_left g) s queue)) clean,
              ap (λ n. length (boarders n 0 queue)) left,
            ),
        r.waiting_list ∙ cc (left, clean),
        r.serviced ∙ ap (λ ps. repeat incr (length ps) g.serviced) a,
      )

module _ (i : ℕ) (p : Passenger) (n : ℕ) (lt : i < floors) where
  pub wait_step :
      (g : Globals) → Inv g → Waits i p n g → g.current_floor ≢ suc i → MovesOn g (Waits i p n)
  unfolding boarders stayers
  wait_step g v w ne =
      let (j, queue, at, q) = queue_here g v in
      let apart : i ≢ j = λ e. ne (at ∙ ap suc (sym e)) in
      let none_here : queue ≡ [] =
        nil_of_short queue (omega (arith, length-two-le-total g.waiting_list i j w.here q apart)) in
      let q' : get_elem? g.waiting_list j ≡ some [] = q ∙ ap some none_here in
      let (moves_on, work) = must_move_waiting g v w.alone in
      let r = round_lem g j [] v work (omega arith) at q' in
      let (eo, el, ew, es) = empty_stop g j [] r w.empty w.no_load in
      let alone : total r.at.waiting_list ≡ 1 =
        ap total ew ∙ omega (arith, total-set g.waiting_list j [] q', w.alone) in
      move_on g j [] (Waits i p n) r (must_move_waiting r.at r.inv alone).0 λ h e. record {
        empty = ap (λ x. x.0) e ∙ eo;
        no_load = ap (λ x. x.1) e ∙ el;
        here =
            ap (λ x. get_elem? x.2 i) e
            ∙ ap (λ qs. get_elem? qs i) ew
            ∙ get_elem?-set_ne g.waiting_list j i [] (λ e. apart (sym e))
            ∙ w.here;
        alone = ap (λ x. total x.2) e ∙ alone;
        served = ap (λ x. x.3) e ∙ es ∙ w.served;
      }

  -- The stop at which he boards.
  pub take_in :
      (g : Globals) → Inv g → Waits i p n g → g.current_floor ≡ suc i → MovesOn g (Rides p n)
  take_in g v w at =
      let (_, work) = must_move_waiting g v w.alone in
      let r = round_lem g i (p ∷ []) v work (omega arith) at w.here in
      let (eo, el, ew, es) = empty_stop g i (p ∷ []) r w.empty w.no_load in
      let (b, s) = boards_alone in
      let load : r.at.loads ≡ 1 = el ∙ ap length b in
      let nobody : total r.at.waiting_list ≡ 0 =
        ap total ew
        ∙ omega (
          arith,
          total-set g.waiting_list i (stayers 0 0 (p ∷ [])) w.here,
          ap length s,
          w.alone,
        ) in
      move_on g i (p ∷ []) (Rides p n) r (must_move_lem r.at r.inv load) λ h e. record {
        aboard = ap (λ x. x.0) e ∙ eo ∙ b;
        load = ap (λ x. x.1) e ∙ load;
        nobody = ap (λ x. total x.2) e ∙ nobody;
        served = ap (λ x. x.3) e ∙ es ∙ w.served;
      }
    where
      kind : p.type ≤ 1
      kind = (Residents-get g.waiting_list 1 i v.queued.residents w.here refl).0.kind

      boards_alone : (boarders 0 0 (p ∷ []) ≡ p ∷ []) × (stayers 0 0 (p ∷ []) ≡ [])
      boards_alone = boards_of_kind p kind
