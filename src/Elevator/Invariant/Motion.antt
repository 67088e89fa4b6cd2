-- ===== src/Elevator/Invariant/Motion.antt =====
-- part3/elevator.c: `moveElevator` and `changeElevatorState` against the invariant.
use kernal_elevator.Base.{
  ℕ, ◌+◌, ◌-◌, ◌≡◌, arith, if◌then◌else◌, ◌==◌, ltb, incr, decr, incr_small, decr_small, slt_small,
}
use kernal_elevator.Elevator.State.{Globals, floors, up, down, set_state}
use kernal_elevator.Elevator.Motion.{change_elevator_state, move_up, move_down, move_elevator}
use kernal_elevator.Elevator.Invariant.Defs.{IsOnTrack, Inv}

-- One move of the sweep: to the next floor, and then on in the same direction or, at an end of the
-- shaft, back.
pub record Position : Type 0 where
  pub current : ℕ
  pub next : ℕ

abbrev pub position : Globals → Position
position g = record { current = g.current_floor; next = g.next_floor }

unfoldable pub sweep : Position → Position
sweep p = record {
  current = p.next;
  next =
      if ltb p.current p.next
      then (if p.next == floors then p.next - 1 else p.next + 1)
      else if p.next == 1
      then p.next + 1
      else p.next - 1;
}

pub sweep-IsOnTrack :
    (p : Position) → IsOnTrack p.current p.next → IsOnTrack (sweep p).current (sweep p).next
unfolding sweep
sweep-IsOnTrack p t = ground arith

abbrev pub direction : Globals → ℕ
direction g = if ltb g.current_floor g.next_floor then up else down

pub change_elevator_state_lem :
    (g : Globals)
    → IsOnTrack g.current_floor g.next_floor
    → change_elevator_state g ≡ set_state (direction g) g
unfolding change_elevator_state
change_elevator_state_lem g t = ground (arith, slt_small g.current_floor g.next_floor)

abbrev pub moved : Globals → Globals
moved g =
    let p = sweep (position g) in
    record g { elevator = record g.elevator { current_floor = p.current; next_floor = p.next } }

-- Once the state is set, `moveElevator` makes one move of the sweep.
pub move_elevator_lem :
    (g : Globals)
    → IsOnTrack g.current_floor g.next_floor
    → g.state ≡ direction g
    → move_elevator g ≡ moved g
unfolding move_elevator move_up move_down sweep
move_elevator_lem g t d = ground (
  arith,
  incr_small g.current_floor,
  incr_small (incr g.current_floor),
  decr_small g.current_floor,
  decr_small (incr g.current_floor),
  incr_small (decr g.current_floor),
  decr_small (decr g.current_floor),
)

pub moved-Inv : (g : Globals) → Inv g → Inv (moved g)
moved-Inv g v = record {
  track = sweep-IsOnTrack (position g) v.track;
  cabin = v.cabin;
  empty_clean = v.empty_clean;
  queued = v.queued;
  blocks = v.blocks;
}
