-- ===== src/System/Report.antt =====
-- part3/elevator.c: `elevator_proc_open` in a reachable state.
use kernal_elevator.Base.{◌≤◌, ◌≡◌, true, some, All, Bytes, length, refl}
use kernal_elevator.Elevator.Queues.{total}
use kernal_elevator.Proc.{Proc, text, opened, compose, proc_open}
use kernal_elevator.Proc.Fits.{compose_fits}
use kernal_elevator.System.Defs.{System, Reach}
use kernal_elevator.System.Reach.{Reach-Inv}
use kernal_elevator.System.Shown.{Reach-IsShown}

-- In every reachable state with at most 40 passengers waiting on each floor and at most 336 in
-- all, opening /proc/elevator with memory for both buffers returns 0 with the whole text, and
-- writes past neither buffer.
pub Reach-proc_open :
    {s : System} (proc : Proc)
    → Reach s
    → All (λ ps. length ps ≤ 40) s.globals.waiting_list
    → total s.globals.waiting_list ≤ 336
    → (m : Bytes) × (compose s.globals ≡ some m)
      × (proc_open true true s.globals proc
          ≡ some (opened, record proc { message = text m; read_p = 1 }))
unfolding proc_open
Reach-proc_open {s} proc r short few =
    let v = Reach-IsShown r in
    let (m, e) = compose_fits s.globals (Reach-Inv r) v.state_le v.serviced_lt short few in
    (m, e, rw e refl)
