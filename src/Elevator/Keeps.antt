-- ===== src/Elevator/Keeps.antt =====
-- part3/elevator.c: the pieces that move nobody.
use kernal_elevator.Base.{ℕ, ◌≡◌, false, some, List, arith}
use kernal_elevator.Elevator.State.{Passenger, Globals, with_mutex, free_all, free_list}
use kernal_elevator.Elevator.Calls.{start_elevator, stop_entry, stop_section}
use kernal_elevator.Elevator.Boarding.{unload_passengers, load_passengers, disinfect}
use kernal_elevator.Elevator.Motion.{change_elevator_state, move_elevator}
use kernal_elevator.Elevator.Scheduler.{rest_idle, pause, go_offline, set_off}

-- Who is where, and what counts them.
abbrev pub holdings : Globals → List Passenger × ℕ × List (List Passenger) × ℕ
holdings g = (g.onboard, g.loads, g.waiting_list, g.serviced)

module _ (g : Globals) where
  pub rest_idle-holdings : holdings (rest_idle g) ≡ holdings g
  unfolding rest_idle
  rest_idle-holdings = ground arith

  pub pause-holdings : (m n : ℕ) → holdings (pause m n g) ≡ holdings g
  unfolding pause
  pause-holdings m n = ground arith

  pub go_offline-holdings : holdings (go_offline g) ≡ holdings g
  unfolding go_offline
  go_offline-holdings = ground arith

  pub set_off-holdings : holdings (set_off g) ≡ holdings g
  unfolding set_off change_elevator_state
  set_off-holdings = ground arith

  pub move_elevator-holdings : holdings (move_elevator g) ≡ holdings g
  unfolding move_elevator
  move_elevator-holdings = ground arith

  pub start_elevator-holdings : holdings (start_elevator g).1 ≡ holdings g
  unfolding start_elevator
  start_elevator-holdings = ground arith

  pub stop_entry-holdings : (h : Globals) → stop_entry g ≡ some h → holdings h ≡ holdings g
  unfolding stop_entry
  stop_entry-holdings h e = ground arith

  pub unlocked_unload-holdings :
      (h : Globals) (n : ℕ) → unload_passengers false g ≡ some (n, h) → holdings h ≡ holdings g
  unfolding unload_passengers with_mutex free_list disinfect
  unlocked_unload-holdings h n e = ground arith

  pub unlocked_stop-holdings :
      (h : Globals) → stop_section false g ≡ some (tt, h) → holdings h ≡ holdings g
  unfolding stop_section with_mutex free_list free_all
  unlocked_stop-holdings h e = ground arith

  pub unlocked_load-holdings :
      (h : Globals) (n : ℕ) → load_passengers false g ≡ some (n, h) → holdings h ≡ holdings g
  unfolding load_passengers with_mutex
  unlocked_load-holdings h n e = ground arith

-- The same for `status`.
module _ (g : Globals) where
  pub rest_idle-status : (rest_idle g).status ≡ g.status
  unfolding rest_idle
  rest_idle-status = ground arith

  pub pause-status : (m n : ℕ) → (pause m n g).status ≡ g.status
  unfolding pause
  pause-status m n = ground arith

  pub go_offline-status : (go_offline g).status ≡ g.status
  unfolding go_offline
  go_offline-status = ground arith

  pub set_off-status : (set_off g).status ≡ g.status
  unfolding set_off change_elevator_state
  set_off-status = ground arith

  pub move_elevator-status : (move_elevator g).status ≡ g.status
  unfolding move_elevator
  move_elevator-status = ground arith

  pub start_elevator-status : (start_elevator g).1.status ≡ g.status
  unfolding start_elevator
  start_elevator-status = ground arith

  pub stop_entry-status : (h : Globals) → stop_entry g ≡ some h → h.status ≡ g.status
  unfolding stop_entry
  stop_entry-status h e = ground arith

  pub unlocked_stop-status :
      (h : Globals) → stop_section false g ≡ some (tt, h) → h.status ≡ g.status
  unfolding stop_section with_mutex free_list free_all
  unlocked_stop-status h e = ground arith

  pub unlocked_load-status :
      (h : Globals) (n : ℕ) → load_passengers false g ≡ some (n, h) → h.status ≡ g.status
  unfolding load_passengers with_mutex
  unlocked_load-status h n e = ground arith
