-- ===== src/Tests/Sights.antt =====
-- /proc/elevator, opened while the car goes from the first floor to the third.
use kernal_elevator.Base.{
  ◌≡◌, ℕ, refl, [], some, none, arith, Bool, All, length, ◌≤◌, true, false, Bytes, ltb,
  if◌then◌else◌, slt, sle, incr, decr,
}
use kernal_elevator.Elevator.State.{Globals, up, with_mutex, free_list, free_all, set_state, ssleep}
use kernal_elevator.Elevator.Boarding.{
  unload_passengers, unload_body, unload_loop, unload_each, unload_one, disinfect, load_passengers,
  load_body, load_loop, load_each, after_loading,
}
use kernal_elevator.Elevator.Motion.{change_elevator_state, move_elevator, move_up}
use kernal_elevator.Elevator.Scheduler.{
  top, pausing, scheduler_step, has_work, must_move, load_if_room, pause, set_off,
}
use kernal_elevator.Proc.{Proc, null, text, opened}
use kernal_elevator.Proc.Unlocked.{proc_open_while}
use kernal_elevator.System.Defs.{System, Step, Reach, next, schedule}
use kernal_elevator.System.Unlocked.{unlocked_fits, state_races}
use kernal_elevator.Tests.States.{willing, riding}
use kernal_elevator.Tests.Threads.{at_run, taken-Reach}

-- On the way up, with the human aboard.
abbrev on_way : ℕ → ℕ → ℕ → Globals
on_way current ahead clock = record riding {
  elevator = record riding.elevator { state = up; current_floor = current; next_floor = ahead };
  clock = clock;
}

leaves-Reach : Reach (at_run top [] (on_way 2 3 3))
unfolding scheduler_step pause set_state ssleep must_move set_off change_elevator_state
    move_elevator move_up slt incr
leaves-Reach =
    next (next (next taken-Reach (schedule willing refl)) (schedule willing refl))
      (schedule willing refl)

passes-Reach : Reach (at_run (pausing 0 0) [] (on_way 2 3 3))
unfolding scheduler_step has_work unload_passengers unload_body unload_loop unload_each unload_one
    disinfect free_list free_all load_if_room load_passengers load_body load_loop load_each
    after_loading with_mutex slt sle incr decr
passes-Reach =
    next (next (next leaves-Reach (schedule willing refl)) (schedule willing refl))
      (schedule willing refl)

arrives-Reach : Reach (at_run top [] (on_way 3 4 5))
unfolding scheduler_step pause set_state ssleep must_move set_off change_elevator_state
    move_elevator move_up slt incr
arrives-Reach =
    next (next (next passes-Reach (schedule willing refl)) (schedule willing refl))
      (schedule willing refl)

abbrev arrived : Globals
arrived = record riding {
  elevator = record riding.elevator {
    state = up;
    current_floor = 3;
    next_floor = 4;
    onboard = [];
    loads = 0;
  };
  serviced = 1;
  live = 0;
  clock = 5;
}

arrived-Reach : Reach (at_run (pausing 1 0) [] arrived)
unfolding scheduler_step has_work unload_passengers unload_body unload_loop unload_each unload_one
    disinfect free_list free_all load_if_room load_passengers load_body load_loop load_each
    after_loading with_mutex slt sle incr decr
arrived-Reach =
    next (next (next arrives-Reach (schedule willing refl)) (schedule willing refl))
      (schedule willing refl)

abbrev unopened : Proc
unopened = record { message = null; read_p = 0; temps = 0 }

state_races_example :
    (t : System) × Step (at_run (pausing 1 0) [] arrived) t
    × (proc_open_while true true (λ k. if ltb k 3 then arrived else t.globals) unopened ≡ none)
state_races_example =
    state_races {s = at_run (pausing 1 0) [] arrived} unopened 1 0 refl (omega arith) (omega arith)

-- The reader sees the car on the second floor and, from his look number 7, on the third.
abbrev glimpse : Bool → System
glimpse b = if b then at_run top [] (on_way 2 3 3) else at_run top [] (on_way 3 4 5)

glimpse-Reach : (b : Bool) → Reach (glimpse b)
glimpse-Reach true = leaves-Reach
glimpse-Reach false = arrives-Reach

glimpse-short : (b : Bool) → All (λ ps. length ps ≤ 33) (glimpse b).globals.waiting_list
glimpse-short true = omega arith
glimpse-short false = omega arith

glimpse-state : (b : Bool) → (glimpse b).globals.state ≡ up
glimpse-state true = refl
glimpse-state false = refl

abbrev glimpses : ℕ → System
glimpses k = glimpse (ltb k 7)

unlocked_fits_example :
    (m : Bytes) × (proc_open_while true true (λ k. (glimpses k).globals) unopened
      ≡ some (opened, record unopened { message = text m; read_p = 1 }))
unlocked_fits_example =
    unlocked_fits glimpses unopened (λ k. glimpse-Reach (ltb k 7)) (λ k. glimpse-short (ltb k 7))
      (λ k _. glimpse-state (ltb k 7))
