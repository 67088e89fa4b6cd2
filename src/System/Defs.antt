-- ===== src/System/Defs.antt =====
-- The threads of the module. A step is one atomic piece of one of them: a section under the mutex
-- with what the thread does around it, or a piece of the scheduler's loop.
use kernal_elevator.Base.{◌<◌, ◌≡◌, Bool, false, List, [], ◌∷◌, ◌++◌, some, int_mod}
use kernal_elevator.Elevator.State.{Passenger, Globals}
use kernal_elevator.Elevator.Calls.{
  start_elevator, request_refused, request_section, stop_entry, stop_section,
}
use kernal_elevator.Elevator.Scheduler.{Answers, Pc, top, scheduler_step}
use kernal_elevator.Elevator.Setup.{zeroed, setup_elevator}

-- A system call that has passed its checks and waits for the mutex.
pub data Pending : Type 0 where
  requesting : Passenger → Pending
  stopping : Pending

pub record System : Type 0 where
  pub globals : Globals
  pub pc : Pc
  pub pending : List Pending

-- A call that its checks refuse changes nothing, and takes no step. A call that faults takes no
-- step either.
pub data Step (s : System) : System → Type 0 where
  schedule :
      (a : Answers) {pc : Pc} {h : Globals}
      → scheduler_step a s.pc s.globals ≡ some (pc, h)
      → Step s (record s { globals = h; pc = pc })
  start : Step s (record s { globals = (start_elevator s.globals).1 })
  request :
      (p : Passenger)
      → p.type < int_mod
      → p.start_floor < int_mod
      → p.destination_floor < int_mod
      → request_refused p.start_floor p.destination_floor p.type s.globals ≡ false
      → Step s (record s { pending = requesting p ∷ s.pending })
  stop :
      {h : Globals}
      → stop_entry s.globals ≡ some h
      → Step s (record s { globals = h; pending = stopping ∷ s.pending })
  requested :
      (locked allocated : Bool) (p : Passenger) (before after : List Pending) {h : Globals}
      → s.pending ≡ before ++ requesting p ∷ after
      → request_section locked allocated p s.globals ≡ some (tt, h)
      → Step s (record s { globals = h; pending = before ++ after })
  stopped :
      (locked : Bool) (before after : List Pending) {h : Globals}
      → s.pending ≡ before ++ stopping ∷ after
      → stop_section locked s.globals ≡ some (tt, h)
      → Step s (record s { globals = h; pending = before ++ after })

-- After `elevator_init`
unfoldable pub init : System
unfolding setup_elevator
init = record { globals = setup_elevator zeroed; pc = top; pending = [] }

pub data Reach : System → Type 0 where
  here : Reach init
  next : {s t : System} → Reach s → Step s t → Reach t

-- Any number of steps.
pub data Run (s : System) : System → Type 0 where
  stay : Run s s
  go : {t u : System} → Run s t → Step t u → Run s u
