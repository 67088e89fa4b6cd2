-- ===== src/Elevator/Motion.antt =====
-- part3/elevator.c: `changeElevatorState` and `moveElevator`.
use kernal_elevator.Base.{◌==◌, if◌then◌else◌, incr, decr, slt}
use kernal_elevator.Elevator.State.{Elevator, Globals, floors, up, down, set_state}

unfoldable pub change_elevator_state : Globals → Globals
unfolding set_state
change_elevator_state g =
    if slt g.current_floor g.next_floor then set_state up g else set_state down g

unfoldable pub move_up : Elevator → Elevator
move_up e =
    let floor = incr e.current_floor in
    record e {
      current_floor = floor;
      next_floor = if floor == floors then decr floor else incr floor;
    }

unfoldable pub move_down : Elevator → Elevator
move_down e =
    let floor = decr e.current_floor in
    record e { current_floor = floor; next_floor = if floor == 1 then incr floor else decr floor }

unfoldable pub move_elevator : Globals → Globals
unfolding move_up move_down
move_elevator g =
    if g.state == up
    then record g { elevator = move_up g.elevator }
    else if g.state == down
    then record g { elevator = move_down g.elevator }
    else g
