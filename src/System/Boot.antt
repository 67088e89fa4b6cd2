-- ===== src/System/Boot.antt =====
-- part3/elevator.c: `elevator_init`, whose stubs are set before `thread_init_parameter` makes the
-- mutex, and the calls that come in between.
use kernal_elevator.Base.{◌≡◌, refl, Bool, true, false, if◌then◌else◌}
use kernal_elevator.Elevator.State.{Globals}
use kernal_elevator.Elevator.Setup.{
  setup_elevator, Registration, thread_init_parameter, elevator_init,
}
use kernal_elevator.System.Locks.{Locks}

-- Up to the stubs.
unfoldable pub publish : Globals → Registration → Globals × Registration
publish g r = (setup_elevator g, record r { stubs = true })

-- From `proc_create` on, with the variables as they are by then.
unfoldable pub complete : Bool → Bool → Globals → Registration → Bool × Globals × Registration
complete created spawned h r =
    if created
    then (let (h', r2) = thread_init_parameter spawned h (record r { proc_entry = true }) in
        if spawned then (true, h', r2) else (false, h', record r2 { proc_entry = false }))
    else (false, h, record r { proc_entry = false })

-- When no call comes in between, this is `elevator_init`.
pub complete-publish :
    (created spawned : Bool) (g : Globals) (r : Registration)
    → (let (h, r1) = publish g r in complete created spawned h r1)
      ≡ elevator_init created spawned g r
unfolding publish complete elevator_init
complete-publish created spawned g r = refl
