-- ===== src/System/Unlocked.antt =====
-- part3/elevator.c: `elevator_proc_open`, which takes no lock, while the other threads run.
use kernal_elevator.Base.{
  ℕ, ◌+◌, ◌≤◌, ◌<◌, ◌≡◌, refl, ap, true, none, some, All, Bytes, length, ltb, arith, if◌then◌else◌,
}
use kernal_elevator.Elevator.State.{Globals, up, loading, set_state, ssleep}
use kernal_elevator.Elevator.Scheduler.{pausing, deciding, pause, scheduler_step}
use kernal_elevator.Elevator.Service.Turn.{willing}
use kernal_elevator.Proc.{Proc, opened, text}
use kernal_elevator.Proc.Unlocked.{
  IsSteady, proc_open_while, compose_while_fits, compose_while-none, state_text_while-none,
}
use kernal_elevator.System.Defs.{System, Step, schedule, Reach}
use kernal_elevator.System.Reach.{Reach-Inv}
use kernal_elevator.System.Shown.{Reach-IsShown}

-- If each look of an open of /proc/elevator at the variables sees some reachable state with at
-- most 33 passengers waiting on each floor, whichever they are, and the state of the elevator
-- does not change while it is compared, the open, with memory for both buffers, returns 0 with a
-- text and writes past neither buffer.
pub unlocked_fits :
    (states : ℕ → System) (proc : Proc)
    → ((k : ℕ) → Reach (states k))
    → ((k : ℕ) → All (λ ps. length ps ≤ 33) (states k).globals.waiting_list)
    → IsSteady (λ k. (states k).globals)
    → (m : Bytes) × (proc_open_while true true (λ k. (states k).globals) proc
        ≡ some (opened, record proc { message = text m; read_p = 1 }))
unfolding proc_open_while
unlocked_fits states proc r short st =
    let (m, e) =
      compose_while_fits (λ k. (states k).globals)
        (λ k. record {
          inv = Reach-Inv (r k);
          state_le = (Reach-IsShown (r k)).state_le;
          serviced_lt = (Reach-IsShown (r k)).serviced_lt;
          short = short k;
        })
        st in
    (m, rw (e) refl)

pause-loading : (m n : ℕ) (g : Globals) → 0 < m + n → (pause m n g).state ≡ loading
unfolding pause set_state ssleep
pause-loading m n g w = ground arith

-- While the car is marked as going up or down and the scheduler is about to sleep for those who
-- got off or on, it can take a piece such that an open of /proc/elevator which compares the
-- state with OFFLINE, IDLE and LOADING before the piece, and looks at all else after it, reads
-- an uninitialised buffer.
pub state_races :
    {s : System} (proc : Proc) (m n : ℕ)
    → s.pc ≡ pausing m n
    → up ≤ s.globals.state
    → 0 < m + n
    → (t : System) × Step s t
      × (proc_open_while true true (λ k. if ltb k 3 then s.globals else t.globals) proc ≡ none)
unfolding scheduler_step proc_open_while
state_races {s} proc m n p u w =
    let g = pause m n s.globals in
    let load = pause-loading m n s.globals w in
    let t : System = record s { globals = g; pc = deciding } in
    let seen : ℕ → Globals = λ k. if ltb k 3 then s.globals else g in
    (
      t,
      schedule willing (ap (λ pc. scheduler_step willing pc s.globals) p),
      rw
          (compose_while-none seen (
            state_text_while-none seen (omega arith) (omega arith) (omega arith)
              (omega (arith, load)) (omega (arith, load))))
          refl,
    )
