-- ===== src/Proc/Crowd.antt =====
-- part3/elevator.c: too many passengers for the buffers of `elevator_proc_open`.
use kernal_elevator.Base.{
  ℕ, ◌+◌, ◌*◌, ◌^◌, ◌≤◌, ◌<◌, ◌≡◌, refl, true, Option, none, some, List, Bytes, length, get_elem?,
  inl, inr, ◌⊎◌, arith,
}
use kernal_elevator.Elevator.State.{Passenger, Globals, floors}
use kernal_elevator.Elevator.Queues.{total}
use kernal_elevator.Elevator.Invariant.Defs.{Inv}
use kernal_elevator.Proc.{Proc, entry_size, compose, proc_open}
use kernal_elevator.Proc.Lengths.{Holds, IsMessage, compose-IsMessage}
use kernal_elevator.Proc.Overflow.{proc_open_overflows}

none_of_Message : (n : ℕ) (o : Option Bytes) → entry_size ≤ n → Holds (IsMessage n) o → o ≡ none
none_of_Message n none h b = refl
none_of_Message n (some t) h b = absurd (omega (arith, b.0, b.1))

total_overflows :
    (g : Globals) (s : Proc) → Inv g → 353 ≤ total g.waiting_list → proc_open true true g s ≡ none
unfolding proc_open
total_overflows g s v many =
    rw
      (none_of_Message (318 + 2 * total g.waiting_list) (compose g) (omega arith)
        (compose-IsMessage g v.queued.size))
      refl

-- More than 40 wait on a floor, or at least 353 in all.
abbrev pub IsCrowded : Globals → Type 0
IsCrowded g =
    ((j : ℕ) × (queue : List Passenger) × (j < floors)
      × (get_elem? g.waiting_list j ≡ some queue)
      × (40 < length queue))
    ⊎ (353 ≤ total g.waiting_list)

-- From a state with the invariant and fewer than 2 ^ 31 live passengers, if more than 40
-- passengers wait on some floor, or at least 353 in all, opening /proc/elevator writes past a
-- buffer, or reads an uninitialised one.
pub crowd_overflows :
    (g : Globals) (s : Proc)
    → Inv g
    → g.live < 2 ^ 31
    → IsCrowded g
    → proc_open true true g s ≡ none
crowd_overflows g s v few (inl (j, queue, h, e, many)) =
    proc_open_overflows g s j queue v few h e many
crowd_overflows g s v few (inr many) = total_overflows g s v many
