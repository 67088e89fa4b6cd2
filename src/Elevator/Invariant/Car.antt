-- ===== src/Elevator/Invariant/Car.antt =====
-- part3/elevator.c: the system calls and the place of the car.
use kernal_elevator.Base.{ℕ, ◌≡◌, Bool, some, arith}
use kernal_elevator.Elevator.State.{Passenger, Globals, with_mutex}
use kernal_elevator.Elevator.Calls.{
  start_elevator, add_waiting, request_body, request_section, stop_entry, stop_section,
}

-- Where the car is, and the direction that the scheduler has set, are not touched by the calls.
abbrev pub car : Globals → ℕ × ℕ × ℕ
car g = (g.state, g.current_floor, g.next_floor)

pub start_elevator-car : (g : Globals) → car (start_elevator g).1 ≡ car g
unfolding start_elevator
start_elevator-car g = ground arith

pub stop_entry-car : (g h : Globals) → stop_entry g ≡ some h → car h ≡ car g
unfolding stop_entry
stop_entry-car g h e = ground arith

pub request_section-car :
    (locked allocated : Bool) (p : Passenger) (g : Globals) {h : Globals}
    → request_section locked allocated p g ≡ some (tt, h)
    → car h ≡ car g
unfolding request_section request_body with_mutex add_waiting
request_section-car locked allocated p g e = ground arith

pub stop_section-car :
    (locked : Bool) (g : Globals) {h : Globals}
    → stop_section locked g ≡ some (tt, h)
    → car h ≡ car g
unfolding stop_section with_mutex
stop_section-car locked g e = ground arith
