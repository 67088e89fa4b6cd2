-- ===== src/Tests/Entries.antt =====
-- The system calls from user space.
use kernal_elevator.Base.{int_mod, ◌-◌, ◌≡◌, true, false, none, some, refl, ◌↔◌, arith}
use kernal_elevator.Syscall.{
  Stubs, Answer, wrap_start_elevator, wrap_stop_elevator, wrap_issue_request,
}
use kernal_elevator.Syscall.Races.{issues, stub_of, sys_call_while, stub_races}
use kernal_elevator.Syscall.Entry.{wrappers_lem}
use kernal_elevator.Elevator.Calls.{start_elevator, issue_request}
use kernal_elevator.Tests.States.{running, running-Inv}

-- A module that is half gone.
abbrev half : Stubs
half = record { start_stub = true; issue_stub = true; stop_stub = false }

abbrev granted : Answer
granted = record { locked = true; allocated = true }

wrappers_lem_example :
    (wrap_start_elevator half granted running ≡ some (start_elevator running))
    × (wrap_issue_request half granted 0 1 3 running ≡ issue_request true true 0 1 3 running)
    × (wrap_stop_elevator half granted running ≡ some (int_mod - 1, running))
wrappers_lem_example = wrappers_lem half granted 0 1 3 running

abbrev none_set : Stubs
none_set = record { start_stub = false; issue_stub = false; stop_stub = false }

stub_races_example :
    (sys_call_while (issues 1 3 0) half none_set granted running ≡ none)
    ↔ ((stub_of (issues 1 3 0) half ≡ true) × (stub_of (issues 1 3 0) none_set ≡ false))
stub_races_example =
    stub_races (issues 1 3 0) half none_set granted running running-Inv refl (omega arith)
