-- ===== src/Tests/Reports.antt =====
-- The proc entry on concrete states.
use kernal_elevator.Base.{
  ◌<◌, ◌↔◌, inl, ◌++◌, incr, codes, map, true, ℕ, ◌≡◌, refl, none, some, List, [], ◌∷◌, arith,
  Bytes, length, ◌>>=◌, replicate, All, zero, suc,
}
use kernal_elevator.Proc.{
  floor_line, floor_start, Proc, null, freed, compose, state_text, temp_size, entry_size, proc_open,
  proc_release,
}
use kernal_elevator.Proc.Exact.{report, report_lines, compose_exact}
use kernal_elevator.Proc.Room.{floor_line_fits}
use kernal_elevator.Proc.Marks.{read_marks, is_human, floor_line-marks}
use kernal_elevator.Proc.Session.{session, session_lem, double_release}
use kernal_elevator.Elevator.State.{Passenger, Globals}
use kernal_elevator.Elevator.Queues.{WaitsAt, Residents}
use kernal_elevator.Elevator.Invariant.Defs.{Inv}
use kernal_elevator.Proc.Fits.{compose_fits}
use kernal_elevator.Proc.Crowd.{crowd_overflows}
use kernal_elevator.Tests.States.{human, running, running-Inv, called, called-Inv}

abbrev closed : Proc
closed = record { message = null; read_p = 0; temps = 0 }

called_text : (m : Bytes) × (compose called ≡ some m)
called_text = compose_fits called called-Inv (omega arith) (omega arith) (omega arith) (omega arith)

-- Forty-one humans on the first floor.
abbrev crowd : List Passenger
crowd = replicate 41 human

abbrev crowded : Globals
crowded = record running {
  waiting_list = crowd ∷ replicate 9 [];
  waiting_on_floor = 41 ∷ replicate 9 0;
  num_waiting = 41;
  live = 41;
}

human-waits : WaitsAt 1 human
human-waits = record { start = refl; kind = omega arith; above = omega arith; below = omega arith }

All-replicate : (n : ℕ) → WaitsAt 1 human → All (WaitsAt 1) (replicate n human)
All-replicate zero w = tt
All-replicate (suc n) w = (w, All-replicate n w)

nobody : Residents 2 (replicate 9 [])
nobody = omega arith

crowded-Inv : Inv crowded
crowded-Inv = record {
  track = running-Inv.track;
  cabin = running-Inv.cabin;
  empty_clean = running-Inv.empty_clean;
  queued = record {
    size = refl;
    counted = refl;
    waiting = refl;
    residents = (All-replicate 41 human-waits, nobody);
  };
  blocks = refl;
}

crowd_overflows_example : proc_open true true crowded closed ≡ none
crowd_overflows_example =
    crowd_overflows crowded closed crowded-Inv (omega arith)
      (inl (0, crowd, omega arith, refl, omega arith))

abbrev shown : Bytes
shown = called_text.0

session_lem_example :
    session called closed
    ≡ some (record {
      first = length shown;
      bytes = shown;
      second = 0;
      more = [];
      after = record closed { message = freed; read_p = 1 };
    })
session_lem_example = session_lem called closed called_text.1

double_release_example :
    (do
      (_, s1) ← proc_open true true called closed
      (_, s2) ← proc_open true true called s1
      s3 ← proc_release s2
      proc_release s3)
    ≡ none
double_release_example = double_release called called closed called_text.1 called_text.1

abbrev no_text : Proc
no_text = record { message = null; read_p = 1; temps = 1 }

called_line : (line : Bytes) × (floor_line called 1 ≡ some line)
unfolding incr
called_line =
    let (line, e, _) =
      floor_line_fits called 1 1 (human ∷ []) (omega arith) (omega arith) refl refl (omega arith)
        (omega arith) in
    (line, e)

floor_line-marks_example :
    (marks : Bytes) × (called_line.0 ≡ (floor_start 1 1 1 ++ marks) ++ codes "\n")
    × (read_marks marks ≡ some (map is_human (human ∷ [])))
unfolding incr
floor_line-marks_example =
    floor_line-marks called 1 1 (human ∷ []) called_line.0 refl refl called_line.1

called_shows : state_text called.state ≡ some (codes "OFFLINE\n")
unfolding state_text
called_shows = refl

compose_exact_example : (compose called ≡ some (report (codes "OFFLINE\n") called)) ↔ (
    All (λ t. length t < temp_size) (report_lines (codes "OFFLINE\n") called)
    × (report (codes "OFFLINE\n") called ≡ report (codes "OFFLINE\n") called)
    × (length (report (codes "OFFLINE\n") called) < entry_size))
compose_exact_example =
    compose_exact called (codes "OFFLINE\n") (report (codes "OFFLINE\n") called) called-Inv
      called_shows
