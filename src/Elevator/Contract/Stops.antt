-- ===== src/Elevator/Contract/Stops.antt =====
-- part3/elevator.c: what `stop_elevator` leaves behind, `loads` among it.
use kernal_elevator.Base.{◌-◌, ◌≡◌, refl, ◌≢◌, ◌⊎◌, Bool, true, false, some, [], arith, length}
use kernal_elevator.Elevator.State.{Globals, with_mutex, free_list}
use kernal_elevator.Elevator.Calls.{stop_entry, stop_body, stop_section, stop_elevator}
use kernal_elevator.Elevator.Boarding.Unload.{move_all_lem, free_all_lem}

-- The state of the elevator that a stop under the lock leaves.
abbrev pub stopped_at : Globals → Globals
stopped_at g = record g {
  elevator = record g.elevator { onboard = []; deactiving = 1; started = 0 };
  live = g.live - length g.onboard;
  mutex = false;
}

stop_entry_lem :
    (g : Globals)
    → g.started ≢ 0
    → g.deactiving ≡ 0
    → stop_entry g
      ≡ some (record g { elevator = record g.elevator { deactiving = 1; started = 0 } })
unfolding stop_entry
stop_entry_lem g s d = ground arith

-- The state that a section with the lock leaves.
abbrev pub emptied : Globals → Globals
emptied g = record g {
  elevator = record g.elevator { onboard = [] };
  live = g.live - length g.onboard;
  mutex = false;
}

pub stop_section_lem : (g : Globals) → stop_section true g ≡ some (tt, emptied g)
unfolding stop_section stop_body with_mutex free_list
stop_section_lem g = rw (move_all_lem g.onboard [], free_all_lem g.onboard g.live) refl

-- A stop of an elevator that is started and not deactivating, with the lock, returns 0: it
-- removes and frees the passengers aboard, sets `deactiving` and clears `started`; `loads`,
-- `status` and the waiting lists stay as they were.
pub stop_removes_aboard :
    (g : Globals) → g.started ≢ 0 → g.deactiving ≡ 0 → stop_elevator true g ≡ some (0, stopped_at g)
unfolding stop_elevator
stop_removes_aboard g s d = rw (stop_entry_lem g s d, stop_elevator) (rw (stop_section_lem _) refl)

-- A stop of an elevator that is not started, or is already deactivating, is refused with 1 and
-- changes nothing.
pub stop_refuses :
    (locked : Bool) (g : Globals)
    → (g.started ≡ 0) ⊎ (g.deactiving ≢ 0)
    → stop_elevator locked g ≡ some (1, g)
unfolding stop_elevator stop_entry
stop_refuses locked g r = ground arith
