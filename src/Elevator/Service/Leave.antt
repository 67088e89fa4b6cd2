-- ===== src/Elevator/Service/Leave.antt =====
-- How a ride ends.
use mathlib.Core.List.{Memᴰ}
use mathlib.Core.List.Memᴰ
use kernal_elevator.Base.{ℕ, ◌≡◌, ◌≢◌, ap, ◌∙◌, sym, true, some, List, [], ◌∷◌, All}
use kernal_elevator.Elevator.State.{Passenger, Globals}
use kernal_elevator.Elevator.Boarding.{unload_passengers}
use kernal_elevator.Elevator.Invariant.Defs.{Inv}
use kernal_elevator.Elevator.Contract.Loading.{unload_rules}
use kernal_elevator.Elevator.Service.Reaches.{Reaches, Stands}
use kernal_elevator.Elevator.Service.Ride.{Aboard, delivery}

pub not-mem_of_All :
    (floor : ℕ) {p : Passenger} (ps : List Passenger)
    → All (λ q. q.destination_floor ≢ floor) ps
    → p.destination_floor ≡ floor
    → ¬ Memᴰ p ps
not-mem_of_All floor [] h e m = absurd (Memᴰ.not-nil m)
not-mem_of_All floor (q ∷ ps) (ne, h) e (Memᴰ.head f) =
    ne (ap (λ (x : Passenger). x.destination_floor) (sym f) ∙ e)
not-mem_of_All floor (q ∷ ps) (ne, h) e (Memᴰ.tail m) = not-mem_of_All floor ps h e m

-- From a state with the invariant, every passenger aboard gets off: within 17 turns of the
-- scheduler that get the mutex, are not preempted and are not told to stop, the car stands at
-- his floor, and after the unloading under the lock that follows, which returns, nobody like him
-- is aboard.
pub drop_off :
    (g : Globals) (p : Passenger)
    → Inv g
    → Memᴰ p g.onboard
    → (r : Reaches g (Stands (Aboard p) p.destination_floor) 17) × (n : ℕ) × (h : Globals)
      × (unload_passengers true r.at ≡ some (n, h))
      × (¬ Memᴰ p h.onboard)
drop_off g p v m =
    let r = delivery g p v m in
    let (n, h, e, u) = unload_rules r.at r.inv in
    (r, n, h, e, not-mem_of_All r.at.current_floor h.onboard u.ride_on (sym r.holds.0))
