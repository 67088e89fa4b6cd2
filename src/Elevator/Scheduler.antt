-- ===== src/Elevator/Scheduler.antt =====
-- part3/elevator.c: `scheduler`, the kernel thread. `scheduler_step` is the loop cut at the points
-- where the thread can be preempted, `scheduler_round` one turn of the loop that is not preempted,
-- `scheduler` a run of the thread.
use kernal_elevator.Base.{
  ℕ, Bool, true, false, not, ◌&&◌, ◌||◌, Option, some, List, [], ◌∷◌, ◌>>=◌, ◌==◌, if◌then◌else◌,
  slt,
}
use kernal_elevator.Elevator.State.{
  Passenger, Globals, capacity, offline, idle, loading, move_time, load_time, default_sleep_time,
  set_state, ssleep,
}
use kernal_elevator.Elevator.Boarding.{unload_passengers, load_passengers}
use kernal_elevator.Elevator.Motion.{change_elevator_state, move_elevator}

-- What the kernel answers in one turn: whether the thread should stop, and whether the calls of
-- mutex_lock_interruptible in `unloadPassengers` and in `loadPassengers` return 0.
pub record Answers : Type 0 where
  pub should_stop : Bool
  pub unload_locked : Bool
  pub load_locked : Bool

abbrev pub list_empty : List Passenger → Bool
list_empty [] = true
list_empty (_ ∷ _) = false

unfoldable pub has_work : Globals → Bool
has_work g = not (g.num_waiting == 0) || not (list_empty g.onboard)

-- `elevator.loads != 0 || num_waiting != 0`
unfoldable pub must_move : Globals → Bool
must_move g = not (g.loads == 0) || not (g.num_waiting == 0)

-- The two last branches of the loop.
unfoldable pub rest_idle : Globals → Globals
unfolding set_state ssleep
rest_idle g =
    if g.started == 0
    then ssleep default_sleep_time (set_state offline g)
    else ssleep default_sleep_time (set_state idle g)

unfoldable pub load_if_room : Bool → Globals → Option (ℕ × Globals)
load_if_room locked g = if slt g.loads capacity then load_passengers locked g else some (0, g)

unfoldable pub pause : ℕ → ℕ → Globals → Globals
unfolding set_state ssleep
pause unload_sleep load_sleep g =
    if unload_sleep == 0 && load_sleep == 0 then g else ssleep load_time (set_state loading g)

unfoldable pub go_offline : Globals → Globals
go_offline g =
    if g.deactiving == 0
    then g
    else record g { elevator = record g.elevator { state = offline; deactiving = 0 } }

unfoldable pub set_off : Globals → Globals
unfolding ssleep
set_off g = ssleep move_time (change_elevator_state g)

unfoldable pub scheduler_round : Answers → Globals → Option Globals
scheduler_round a g =
    if has_work g
    then (do
      (unload_sleep, g1) ← unload_passengers a.unload_locked g
      (load_sleep, g2) ← load_if_room a.load_locked g1
      let g3 = pause unload_sleep load_sleep g2
      some (if must_move g3 then move_elevator (set_off g3) else go_offline g3))
    else some (rest_idle g)

-- The run ends when the thread is told to stop, or with the answers.
unfoldable pub scheduler : List Answers → Globals → Option Globals
scheduler [] g = some g
scheduler (a ∷ rest) g =
    if a.should_stop then some g else (scheduler_round a g >>= λ h. scheduler rest h)

-- Where the thread stands between two atomic pieces of its loop.
pub data Pc : Type 0 where
  top : Pc
  unloading : Pc
  boarding : (unload_sleep : ℕ) → Pc
  pausing : (unload_sleep load_sleep : ℕ) → Pc
  deciding : Pc
  moving : Pc
  exited : Pc

unfoldable pub scheduler_step : Answers → Pc → Globals → Option (Pc × Globals)
scheduler_step a top g =
    if a.should_stop
    then some (exited, g)
    else if has_work g
    then some (unloading, g)
    else some (top, rest_idle g)
scheduler_step a unloading g = do
  (unload_sleep, h) ← unload_passengers a.unload_locked g
  some (boarding unload_sleep, h)
scheduler_step a (boarding unload_sleep) g = do
  (load_sleep, h) ← load_if_room a.load_locked g
  some (pausing unload_sleep load_sleep, h)
scheduler_step a (pausing unload_sleep load_sleep) g =
    some (deciding, pause unload_sleep load_sleep g)
scheduler_step a deciding g =
    if must_move g then some (moving, set_off g) else some (top, go_offline g)
scheduler_step a moving g = some (top, move_elevator g)
scheduler_step a exited g = some (exited, g)
