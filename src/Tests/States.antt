-- ===== src/Tests/States.antt =====
-- Concrete states of the module.
use kernal_elevator.Base.{true, false, [], ◌∷◌, arith, refl}
use kernal_elevator.Elevator.State.{Passenger, Globals}
use kernal_elevator.Elevator.Scheduler.{Answers}
use kernal_elevator.Elevator.Setup.{zeroed, Registration}
use kernal_elevator.Elevator.Invariant.Defs.{Inv}
use kernal_elevator.Elevator.Invariant.Calls.{
  IsRequest, queued_up, queued_up-Inv, allocated_under_lock,
}
use kernal_elevator.Elevator.Contract.Requests.{IsInts}

abbrev pub human : Passenger
human = record { type = 0; start_floor = 1; destination_floor = 3 }

abbrev pub willing : Answers
willing = record { should_stop = false; unload_locked = true; load_locked = true }

-- The elevator after `elevator_init`, written out, and after `start_elevator`.
abbrev pub resting : Globals
resting = record zeroed { elevator = record zeroed.elevator { current_floor = 1; next_floor = 2 } }

abbrev pub running : Globals
running = record resting { elevator = record resting.elevator { started = 1 } }

pub running-Inv : Inv running
running-Inv = record {
  track = omega arith;
  cabin = record {
    loads_le = omega arith;
    aboard = omega arith;
    status_le = omega arith;
    clean = λ _. tt;
    riders = tt;
  };
  empty_clean = λ _. refl;
  queued = record { size = refl; counted = refl; waiting = refl; residents = omega arith };
  blocks = refl;
}

-- With one human who waits on the first floor.
abbrev pub called : Globals
called = record (queued_up 0 [] human (allocated_under_lock running)) { mutex = false }

pub called-Inv : Inv called
called-Inv =
    queued_up-Inv human running 0 [] running-Inv
      (record { start = refl; kind = omega arith; above = omega arith; below = omega arith }) refl

pub human-IsInts : IsInts human
human-IsInts = record {
  type_lt = omega arith;
  start_lt = omega arith;
  destination_lt = omega arith;
}

pub human-IsRequest : IsRequest human
human-IsRequest = record {
  kind = omega arith;
  from_above = omega arith;
  from_below = omega arith;
  above = omega arith;
  below = omega arith;
}

-- With a human aboard.
abbrev pub riding : Globals
riding = record running {
  elevator = record running.elevator { onboard = human ∷ []; loads = 1 };
  live = 1;
}

pub riding-Inv : Inv riding
riding-Inv = record {
  track = omega arith;
  cabin = record {
    loads_le = omega arith;
    aboard = omega arith;
    status_le = omega arith;
    clean = λ _. ((omega arith), tt);
    riders = (omega arith, tt);
  };
  empty_clean = λ e. refl;
  queued = record { size = refl; counted = refl; waiting = refl; residents = omega arith };
  blocks = refl;
}

abbrev pub registered : Registration
registered = record { stubs = true; proc_entry = true; thread = true; id = 1; cnt = 0; next_id = 2 }
