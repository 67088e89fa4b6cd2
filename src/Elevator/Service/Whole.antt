-- ===== src/Elevator/Service/Whole.antt =====
-- The whole way of one passenger, from the queue to his floor.
use kernal_elevator.Base.{
  ℕ, zero, suc, ◌+◌, ◌*◌, ◌≤◌, ◌<◌, ◌≡◌, refl, sym, ◌∙◌, ap, some, List, [], ◌∷◌, ◌++◌, arith, incr,
  replicate, Option-cases, inl, inr, ◌>>=◌,
}
use kernal_elevator.Elevator.State.{Passenger, Globals, floors}
use kernal_elevator.Elevator.Queues.{Residents-get, total}
use kernal_elevator.Elevator.Scheduler.{Answers, scheduler, scheduler_round}
use kernal_elevator.Elevator.Invariant.Defs.{Inv}
use kernal_elevator.Elevator.Invariant.Scheduler.{scheduler_turn}
use kernal_elevator.Elevator.Service.Turn.{willing}
use kernal_elevator.Elevator.Service.Reaches.{reaches}
use kernal_elevator.Elevator.Service.Journey.{Waits, Rides, wait_step, take_in}
use kernal_elevator.Elevator.Service.Riding.{ride_step, leave_off}

replicate-add : (a b : ℕ) → replicate (a + b) willing ≡ replicate a willing ++ replicate b willing
replicate-add zero b = let e : zero + b ≡ b = omega arith in ap (λ n. replicate n willing) e
replicate-add (suc a) b =
    let e : suc a + b ≡ suc (a + b) = omega arith in
    ap (λ n. replicate n willing) e ∙ ap (λ ws. willing ∷ ws) (replicate-add a b)

scheduler-append :
    (a : ℕ) (bs : List Answers) (g : Globals) {h : Globals}
    → scheduler (replicate a willing) g ≡ some h
    → scheduler (replicate a willing ++ bs) g ≡ scheduler bs h
unfolding scheduler
scheduler-append zero bs g e = ap (λ o. o >>= scheduler bs) e
scheduler-append (suc a) bs g {h} e = elim (Option-cases (scheduler_round willing g)) [
  | inl stuck ↦ absurd (ground (arith, stuck))
  | inr (k, r) ↦
      scheduler_turn willing (replicate a willing ++ bs) g k refl r
      ∙ scheduler-append a bs k (sym (scheduler_turn willing (replicate a willing) g k refl r) ∙ e)
]

-- Runs of granted turns, one after the other.
pub then_turns :
    (a b : ℕ) (g : Globals) {h k : Globals}
    → scheduler (replicate a willing) g ≡ some h
    → scheduler (replicate b willing) h ≡ some k
    → scheduler (replicate (a + b) willing) g ≡ some k
then_turns a b g e f =
    ap (λ ws. scheduler ws g) (replicate-add a b) ∙ scheduler-append a (replicate b willing) g e ∙ f

one_turn :
    (g : Globals) {h : Globals}
    → scheduler_round willing g ≡ some h
    → scheduler (replicate 1 willing) g ≡ some h
unfolding scheduler
one_turn g r = scheduler_turn willing [] g _ refl r

-- He is aboard at his floor, and a turn later he is counted and nobody is left in the building.
pub record IsServed (p : Passenger) (n : ℕ) (b h : Globals) : Type 0 where
  pub aboard : b.onboard ≡ p ∷ []
  pub there : b.current_floor ≡ p.destination_floor
  pub empty : h.onboard ≡ []
  pub nobody : total h.waiting_list ≡ 0
  pub served : h.serviced ≡ incr n
  pub floor : h.current_floor ≡ p.destination_floor

-- From a state with the invariant in which one passenger waits on a floor of the building,
-- nobody else waits and nobody is aboard, he is taken to his floor within 36 turns of the
-- scheduler that get the mutex, are not preempted and are not told to stop, and within 3 seconds
-- of sleep for each. Before the last of them he, and nobody else, is aboard and the car stands
-- at the floor he goes to; after it the car still stands there, it is empty, nobody waits, and
-- `serviced` has been counted up once.
pub journey :
    (g : Globals) (i : ℕ) (p : Passenger)
    → Inv g
    → i < floors
    → Waits i p g.serviced g
    → (turns : ℕ) × (b : Globals) × (h : Globals) × (turns + 1 ≤ 36)
      × (scheduler (replicate turns willing) g ≡ some b)
      × (scheduler (replicate (turns + 1) willing) g ≡ some h)
      × IsServed p g.serviced b h
      × (h.clock ≤ g.clock + 3 * (turns + 1))
journey g i p v lt w =
    let n = g.serviced in
    let at = Residents-get g.waiting_list 1 i v.queued.residents w.here refl in
    let r = reaches (Waits i p n) (suc i) (wait_step i p n lt) g v w (omega arith) (omega arith) in
    let m = take_in i p n lt r.at r.inv r.holds.1 r.holds.0 in
    let t =
      reaches (Rides p n) p.destination_floor (ride_step p n) m.after m.inv m.keeps
        (omega (arith, at.0.above)) (omega (arith, at.0.below)) in
    let (h, e, empty, nobody, served, clock, floor) =
      leave_off p n t.at t.inv t.holds.1 t.holds.0 in
    let to_him = then_turns r.turns 1 g r.runs (one_turn r.at m.runs) in
    let to_his_floor = then_turns (r.turns + 1) t.turns g to_him t.runs in
    (
      r.turns + 1 + t.turns,
      t.at,
      h,
      omega (arith, r.turns_le, t.turns_le),
      to_his_floor,
      then_turns (r.turns + 1 + t.turns) 1 g to_his_floor (one_turn t.at e),
      record {
        aboard = t.holds.1.aboard;
        there = t.holds.0;
        empty = empty;
        nobody = nobody;
        served = served;
        floor = floor ∙ t.holds.0;
      },
      omega (arith, r.in_time, m.time, t.in_time, clock),
    )
