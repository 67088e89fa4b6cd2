-- ===== src/Elevator/Contract/Loading.antt =====
-- part3/elevator.c: the rules of one stop at a floor, in `unloadPassengers` and `loadPassengers`.
use kernal_elevator.Base.{
  ℕ, suc, ◌+◌, ◌-◌, ◌≤◌, ◌<◌, ◌≡◌, refl, ◌≢◌, ◌⊎◌, true, some, List, [], ◌∷◌, ◌++◌, arith, All,
  length, get_elem?, get_elem?-set_self, Merge, length-Merge, incr,
}
use kernal_elevator.Elevator.State.{Passenger, Globals, capacity}
use kernal_elevator.Elevator.Queues.{WaitsAt, Residents-get}
use kernal_elevator.Elevator.Boarding.{unload_passengers, load_passengers}
use kernal_elevator.Elevator.Boarding.Spec.{arrivals, riders, repeat}
use kernal_elevator.Elevator.Boarding.Unload.{arrivals-riders-Merge}
use kernal_elevator.Elevator.Boarding.Rules.{
  boarders-stayers-Merge, boarders_fit, boarders_human, stayers_refused,
}
use kernal_elevator.Elevator.Invariant.Defs.{Inv}
use kernal_elevator.Elevator.Invariant.Boarding.{gone, unloaded_at, unload_passengers_lem}
use kernal_elevator.Elevator.Invariant.Loading.{boarding, staying, load_passengers_lem}

-- What a stop owes to those aboard.
pub record Unloaded (g h : Globals) : Type 0 where
  pub left : List Passenger
  pub parts : Merge left h.onboard g.onboard
  pub arrived : All (λ p. p.destination_floor ≡ g.current_floor) left
  pub ride_on : All (λ p. p.destination_floor ≢ g.current_floor) h.onboard
  pub lighter : h.loads + length left ≡ g.loads
  pub freed : h.live + length left ≡ g.live
  pub counted : h.serviced ≡ repeat incr (length left) g.serviced
  pub queues : h.waiting_list ≡ g.waiting_list

arrivals-arrived :
    (floor : ℕ) (ps : List Passenger)
    → All (λ p. p.destination_floor ≡ floor) (arrivals floor ps)
      × All (λ p. p.destination_floor ≢ floor) (riders floor ps)
unfolding arrivals riders
arrivals-arrived floor [] = (tt, tt)
arrivals-arrived floor (p ∷ ps) = ground (arith, arrivals-arrived floor ps)

-- What a stop owes to those who wait at its floor, and to those aboard.
pub record Loaded (g h : Globals) (queue : List Passenger) : Type 0 where
  pub boarded : List Passenger
  pub stayed : List Passenger
  pub parts : Merge boarded stayed queue
  pub aboard : h.onboard ≡ g.onboard ++ boarded
  pub heavier : h.loads ≡ g.loads + length boarded
  pub fits : h.loads ≤ capacity
  pub humans :
      (xs : List Passenger) (p : Passenger) (ys : List Passenger)
      → boarded ≡ xs ++ p ∷ ys
      → p.type ≡ 0
      → (g.status ≡ 0) × All (λ q. q.type ≢ 1) xs
  pub refused : All (λ p. (h.loads ≡ capacity) ⊎ ((p.type ≡ 0) × (h.status ≢ 0))) stayed

kinds : (floor : ℕ) (ps : List Passenger) → All (WaitsAt floor) ps → All (λ p. p.type ≤ 1) ps
kinds floor [] w = tt
kinds floor (p ∷ ps) (w, ws) = (w.kind, kinds floor ps ws)

pub waiting_at :
    (g : Globals) (i : ℕ) (queue : List Passenger)
    → Inv g
    → g.current_floor ≡ suc i
    → get_elem? g.waiting_list i ≡ some queue
    → All (WaitsAt g.current_floor) queue
waiting_at g i queue v at q = Residents-get g.waiting_list 1 i v.queued.residents q (omega arith)

in_range : (g : Globals) (i : ℕ) → Inv g → g.current_floor ≡ suc i → i < length g.waiting_list
in_range g i v at = omega arith

-- From a state with the invariant, under the lock, `loadPassengers` returns. It splits the queue
-- of the floor, in its order, into those who board, who come behind those aboard, and those who
-- stay, who are the queue of the floor afterwards. `loads` grows by the number of those who
-- board and stays within the capacity. A human boards only if the elevator was not infected and
-- no zombie boarded before him. Whoever stays is refused for want of room, or is a human before
-- an infected elevator.
pub load_rules :
    (g : Globals) (i : ℕ) (queue : List Passenger)
    → Inv g
    → g.current_floor ≡ suc i
    → get_elem? g.waiting_list i ≡ some queue
    → (n : ℕ) × (h : Globals) × (load_passengers true g ≡ some (n, h))
      × (l : Loaded g h queue) × (get_elem? h.waiting_list i ≡ some l.stayed)
load_rules g i queue v at q = (
  _,
  _,
  load_passengers_lem g i queue v at q,
  record {
    boarded = boarding g i queue;
    stayed = staying g i queue;
    parts = boarders-stayers-Merge g.loads g.status queue;
    aboard = refl;
    heavier = refl;
    fits = boarders_fit g.loads g.status queue v.cabin.loads_le;
    humans = boarders_human g.loads g.status queue;
    refused =
        stayers_refused g.loads g.status queue
          (kinds g.current_floor queue (waiting_at g i queue v at q)) v.cabin.loads_le;
  },
  get_elem?-set_self g.waiting_list i (staying g i queue) (in_range g i v at),
)

pub unloaded_at-fields :
    (g : Globals)
    → ((unloaded_at g).onboard ≡ riders g.current_floor g.onboard)
      × ((unloaded_at g).loads ≡ g.loads - length (gone g))
      × ((unloaded_at g).waiting_list ≡ g.waiting_list)
      × ((unloaded_at g).live ≡ g.live - length (gone g))
      × ((unloaded_at g).serviced ≡ repeat incr (length (gone g)) g.serviced)
unfolding unloaded_at
unloaded_at-fields g = ground arith

unloaded : (g : Globals) → Inv g → Unloaded g (unloaded_at g)
unloaded g v =
    let (a, b, c, d, n) = unloaded_at-fields g in
    let (here, on) = arrivals-arrived g.current_floor g.onboard in
    let m = arrivals-riders-Merge g.current_floor g.onboard in
    record {
      left = gone g;
      parts = rw a m;
      arrived = here;
      ride_on = rw a on;
      lighter = omega (arith, length-Merge {0} m);
      freed = omega (arith, length-Merge {0} m);
      counted = n;
      queues = c;
    }

-- From a state with the invariant, under the lock, `unloadPassengers` returns. Exactly the
-- passengers for the floor at which the car stands leave, the others stay aboard in their order,
-- `loads` and the live blocks fall by the number of those who leave, `serviced` is counted up
-- once for each, and the waiting lists are untouched.
pub unload_rules :
    (g : Globals)
    → Inv g
    → (n : ℕ) × (h : Globals) × (unload_passengers true g ≡ some (n, h)) × Unloaded g h
unload_rules g v = (_, _, unload_passengers_lem g v, unloaded g v)
