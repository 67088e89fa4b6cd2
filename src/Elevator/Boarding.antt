-- ===== src/Elevator/Boarding.antt =====
-- part3/elevator.c: `unloadPassengers` and `loadPassengers`.
pub mod Spec
pub mod Load
pub mod Unload
pub mod Rules
pub mod Order
use kernal_elevator.Base.{
  ℕ, Bool, true, false, ◌&&◌, Option, none, some, List, [], ◌∷◌, ◌++◌, ◌>>=◌, get_elem?, set,
  modify, ◌==◌, if◌then◌else◌, incr, decr, sle,
}
use kernal_elevator.Elevator.State.{Passenger, Elevator, Globals, capacity, with_mutex, free_list}

-- What the loop of `unloadPassengers` changes: `stay` is what is left of `elevator.onboard`.
pub record Unloading : Type 0 where
  pub stay : List Passenger
  pub delete_list : List Passenger
  pub loads : ℕ
  pub serviced : ℕ
  pub unloaded : ℕ

unfoldable pub unload_one : ℕ → Passenger → Unloading → Unloading
unload_one floor p u =
    if p.destination_floor == floor
    then record u {
      delete_list = u.delete_list ++ p ∷ [];
      loads = decr u.loads;
      serviced = incr u.serviced;
      unloaded = 1;
    }
    else record u { stay = u.stay ++ p ∷ [] }

unfoldable pub unload_each : ℕ → List Passenger → Unloading → Unloading
unload_each floor [] u = u
unload_each floor (p ∷ ps) u = unload_each floor ps (unload_one floor p u)

unfoldable pub unload_loop : Globals → Unloading
unload_loop g =
    unload_each g.current_floor g.onboard
      (record { stay = []; delete_list = []; loads = g.loads; serviced = g.serviced; unloaded = 0 })

unfoldable pub unload_body : Globals → Option ((ℕ × List Passenger) × Globals)
unload_body g =
    let u = unload_loop g in
    some (
      (u.unloaded, u.delete_list),
      record g {
        elevator = record g.elevator { onboard = u.stay; loads = u.loads };
        serviced = u.serviced;
      },
    )

-- `if (elevator.loads == 0) elevator.status = 0;`
unfoldable pub disinfect : Globals → Globals
disinfect g = if g.loads == 0 then record g { elevator = record g.elevator { status = 0 } } else g

-- The lock, the loop, the unlock, the deletion and the reset of the status.
unfoldable pub unload_passengers : Bool → Globals → Option (ℕ × Globals)
unload_passengers locked g = do
  ((unloaded, delete_list), h) ← with_mutex locked (0, []) unload_body g
  some (unloaded, disinfect (free_list delete_list h))

-- What the loop of `loadPassengers` changes: `stay` is what is left of the floor's list.
pub record Boarding : Type 0 where
  pub stay : List Passenger
  pub onboard : List Passenger
  pub status : ℕ
  pub loads : ℕ
  pub waiting_on_floor : List ℕ
  pub num_waiting : ℕ
  pub loaded : ℕ

unfoldable pub board : Passenger → Boarding → Boarding
board p b = record b {
  onboard = b.onboard ++ p ∷ [];
  loads = incr b.loads;
  waiting_on_floor = modify b.waiting_on_floor (decr p.start_floor) decr;
  num_waiting = decr b.num_waiting;
  loaded = 1;
}

unfoldable pub leave : Passenger → Boarding → Boarding
leave p b = record b { stay = b.stay ++ p ∷ [] }

-- A zombie infects the elevator; a human boards only if it is not infected.
unfoldable pub load_one : ℕ → Passenger → Boarding → Boarding
unfolding board leave
load_one floor p b =
    if p.start_floor == floor
    then (if sle (incr b.loads) capacity
        then (if p.type == 1
            then board p (record b { status = 1 })
            else if p.type == 0 && b.status == 0
            then board p b
            else leave p b)
        else leave p b)
    else leave p b

unfoldable pub load_each : ℕ → List Passenger → Boarding → Boarding
load_each floor [] b = b
load_each floor (p ∷ ps) b = load_each floor ps (load_one floor p b)

unfoldable pub load_loop : List Passenger → Globals → Boarding
load_loop queue g = load_each g.current_floor queue (record {
  stay = [];
  onboard = g.onboard;
  status = g.status;
  loads = g.loads;
  waiting_on_floor = g.waiting_on_floor;
  num_waiting = g.num_waiting;
  loaded = 0;
})

-- The state after the loop over the list of index `i`.
unfoldable pub after_loading : ℕ → Boarding → Globals → Globals
after_loading i b g = record g {
  elevator = record g.elevator { onboard = b.onboard; status = b.status; loads = b.loads };
  waiting_list = set g.waiting_list i b.stay;
  waiting_on_floor = b.waiting_on_floor;
  num_waiting = b.num_waiting;
}

unfoldable pub load_body : Globals → Option (ℕ × Globals)
unfolding after_loading
load_body g = do
  let i = decr g.current_floor
  queue ← get_elem? g.waiting_list i
  let b = load_loop queue g
  some (b.loaded, after_loading i b g)

unfoldable pub load_passengers : Bool → Globals → Option (ℕ × Globals)
load_passengers locked g = with_mutex locked 0 load_body g
