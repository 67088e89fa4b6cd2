-- ===== src/Elevator/Service/Ride.antt =====
-- part3/elevator.c: the passengers aboard and the waiting lists, over the turns of `scheduler`.
use mathlib.Core.List.{Memᴰ}
use mathlib.Core.List.Memᴰ
use kernal_elevator.Base.{
  ℕ, suc, ◌^◌, ◌<◌, ◌≡◌, sym, subst, ◌∙◌, ap, ◌≢◌, inl, inr, true, some, List, [], ◌∷◌, All, arith,
  Bool-cases, length, length_of_mem, get_elem?, ◌==◌,
}
use kernal_elevator.Elevator.State.{Passenger, Globals, floors}
use kernal_elevator.Elevator.Queues.{IsRider, length-le-total}
use kernal_elevator.Elevator.Boarding.Spec.{riders, arrivals}
use kernal_elevator.Elevator.Motion.{move_elevator}
use kernal_elevator.Elevator.Scheduler.{has_work, must_move, set_off}
use kernal_elevator.Elevator.Invariant.Defs.{Inv}
use kernal_elevator.Elevator.Invariant.Motion.{sweep}
use kernal_elevator.Elevator.Service.Turn.{turn, move_lem}
use kernal_elevator.Elevator.Service.Reaches.{Reaches, MovesOn, Stands, reaches}

pub has_work_aboard : (g : Globals) {p : Passenger} → Memᴰ p g.onboard → has_work g ≡ true
unfolding has_work
has_work_aboard g m = ground (arith, length_of_mem {0} m)

pub must_move_aboard : (g : Globals) {p : Passenger} → Inv g → Memᴰ p g.onboard → must_move g ≡ true
unfolding must_move
must_move_aboard g v m = ground (arith, length_of_mem {0} m)

pub mem-riders :
    (floor : ℕ) {p : Passenger} (ps : List Passenger)
    → p.destination_floor ≢ floor
    → Memᴰ p ps
    → Memᴰ p (riders floor ps)
unfolding riders
mem-riders floor [] ne m = absurd (Memᴰ.not-nil m)
mem-riders floor (q ∷ ps) ne (Memᴰ.head e) = elim (Bool-cases (q.destination_floor == floor)) [
  | inl t ↦ absurd (ground arith)
  | inr t ↦ rw t (Memᴰ.head e)
]
mem-riders floor (q ∷ ps) ne (Memᴰ.tail m) = elim (Bool-cases (q.destination_floor == floor)) [
  | inl t ↦ rw t (mem-riders floor ps ne m)
  | inr t ↦ rw t (Memᴰ.tail (mem-riders floor ps ne m))
]

mem-arrivals :
    (floor : ℕ) {p : Passenger} (ps : List Passenger)
    → p.destination_floor ≡ floor
    → Memᴰ p ps
    → Memᴰ p (arrivals floor ps)
unfolding arrivals
mem-arrivals floor [] e m = absurd (Memᴰ.not-nil m)
mem-arrivals floor (q ∷ ps) e (Memᴰ.head i) = elim (Bool-cases (q.destination_floor == floor)) [
  | inl t ↦ rw t (Memᴰ.head i)
  | inr t ↦ absurd (ground arith)
]
mem-arrivals floor (q ∷ ps) e (Memᴰ.tail m) = elim (Bool-cases (q.destination_floor == floor)) [
  | inl t ↦ rw t (Memᴰ.tail (mem-arrivals floor ps e m))
  | inr t ↦ rw t (mem-arrivals floor ps e m)
]

-- A turn that is not at his floor keeps the passenger aboard, and moves the car on.
abbrev pub Aboard : Passenger → Globals → Type 0
Aboard p g = Memᴰ p g.onboard

ride_on :
    (p : Passenger) (g : Globals)
    → Inv g
    → Aboard p g
    → g.current_floor ≢ p.destination_floor
    → MovesOn g (Aboard p)
ride_on p g v m ne =
    let t = turn g v (has_work_aboard g m) in
    let aboard : Aboard p t.stop =
      subst (Memᴰ p) (sym t.served.onboard) (
        Memᴰ.append_left t.served.new (mem-riders g.current_floor g.onboard (λ e. ne (sym e)) m)) in
    let (w, place, on, _, clock, _) = move_lem t.stop t.inv in
    record {
      after = move_elevator (set_off t.stop);
      runs = t.runs (must_move_aboard t.stop t.inv aboard);
      inv = w;
      keeps = subst (Memᴰ p) (sym on) aboard;
      place = place ∙ ap sweep t.served.place;
      time = omega (arith, clock, t.served.time);
    }

pub All-mem {ℓ κ} : {A : Type ℓ} (P : A → Type κ) {a : A} (xs : List A) → All P xs → Memᴰ a xs → P a
All-mem P [] h m = absurd (Memᴰ.not-nil m)
All-mem P (x ∷ xs) (px, h) (Memᴰ.head e) = subst P (sym e) px
All-mem P (x ∷ xs) (px, h) (Memᴰ.tail m) = All-mem P xs h m

-- From a state with the invariant, every passenger aboard reaches the floor he goes to: within
-- 17 turns of the scheduler that get the mutex, are not preempted and are not told to stop, and
-- within 3 seconds of sleep for each, the car stands at that floor with him still aboard.
pub delivery :
    (g : Globals) (p : Passenger)
    → Inv g
    → Memᴰ p g.onboard
    → Reaches g (Stands (Aboard p) p.destination_floor) 17
delivery g p v m =
    let r = All-mem IsRider g.onboard v.cabin.riders m in
    reaches (Aboard p) p.destination_floor (ride_on p) g v m r.above r.below

-- The queue of a floor, while there are fewer than 2 ^ 32 passengers in all.
pub record Queued (i : ℕ) (queue : List Passenger) (g : Globals) : Type 0 where
  pub few : g.live < 2 ^ 32
  pub here : get_elem? g.waiting_list i ≡ some queue

module _ (i : ℕ) (queue : List Passenger) (somebody : 0 < length queue) where
  num_waiting-ne-zero : (g : Globals) → Inv g → Queued i queue g → g.num_waiting ≢ 0
  num_waiting-ne-zero g v q = omega (arith, length-le-total g.waiting_list i q.here)

  pub has_work-Queued : (g : Globals) → Inv g → Queued i queue g → has_work g ≡ true
  unfolding has_work
  has_work-Queued g v q = ground (arith, num_waiting-ne-zero g v q)

  pub must_move-Queued : (g : Globals) → Inv g → Queued i queue g → must_move g ≡ true
  unfolding must_move
  must_move-Queued g v q = ground (arith, num_waiting-ne-zero g v q)

  wait_on :
      (g : Globals)
      → Inv g
      → Queued i queue g
      → g.current_floor ≢ suc i
      → MovesOn g (Queued i queue)
  wait_on g v q ne =
      let t = turn g v (has_work-Queued g v q) in
      let still : Queued i queue t.stop = record {
        few = omega (arith, t.served.shrinks);
        here = t.served.elsewhere i ne ∙ q.here;
      } in
      let (w, place, _, queues, clock, live) = move_lem t.stop t.inv in
      record {
        after = move_elevator (set_off t.stop);
        runs = t.runs (must_move-Queued t.stop t.inv still);
        inv = w;
        keeps = record {
          few = omega (arith, live, still.few);
          here = ap (λ qs. get_elem? qs i) queues ∙ still.here;
        };
        place = place ∙ ap sweep t.served.place;
        time = omega (arith, clock, t.served.time);
      }

  -- From a state with the invariant and fewer than 2 ^ 32 live passengers, every floor with
  -- somebody in its queue is reached: within 17 turns of the scheduler that get the mutex, are not
  -- preempted and are not told to stop, and within 3 seconds of sleep for each, the car stands at
  -- that floor with the queue still as it was.
  pub answer :
      (g : Globals)
      → Inv g
      → g.live < 2 ^ 32
      → get_elem? g.waiting_list i ≡ some queue
      → i < floors
      → Reaches g (Stands (Queued i queue) (suc i)) 17
  answer g v few here lt =
      reaches (Queued i queue) (suc i) wait_on g v (record { few = few; here = here }) (omega arith)
        (omega arith)
