-- ===== src/Proc/Overflow.antt =====
-- part3/elevator.c: `temp` in `elevator_proc_open`, for a floor on which many wait.
use kernal_elevator.Base.{
  ℕ, zero, suc, ◌-◌, ◌%◌, ◌^◌, ◌<◌, ◌≡◌, refl, ap, ◌∙◌, true, none, some, List, Bytes, bind-none,
  length, get_elem?, arith, subst,
}
use native.Mathlib.Decide.{ℕ_discrete}
use kernal_elevator.Elevator.State.{Passenger, Globals, floors}
use kernal_elevator.Elevator.Queues.{counts-get, length-le-total}
use kernal_elevator.Elevator.Invariant.Defs.{Inv}
use kernal_elevator.Proc.{Proc, floor_line, strcat, floor_lines, header, compose, proc_open}
use kernal_elevator.Proc.Room.{floor_line_overflows}

module _ (g : Globals) (j : ℕ) (full : floor_line g (suc j) ≡ none) where
  floor_lines-none : (i : ℕ) (m : Bytes) → j < i → floor_lines g i m ≡ none
  unfolding floor_lines
  floor_lines-none zero m h = absurd (omega arith)
  floor_lines-none (suc i) m h = elim (ℕ_discrete i j) [
    | yes e ↦ rw (e, full) refl
    | no ne ↦
        bind-none (floor_line g (suc i)) _
          λ line. bind-none (strcat m line) _ (λ m'. floor_lines-none i m' (omega arith))
  ]

  compose-none : j < floors → compose g ≡ none
  unfolding compose
  compose-none h = bind-none (header g) (floor_lines g floors) (λ m. floor_lines-none floors m h)

-- From a state with the invariant and fewer than 2 ^ 31 live passengers, if more than 40
-- passengers wait on some floor, opening /proc/elevator writes past a buffer, or reads an
-- uninitialised one.
pub proc_open_overflows :
    (g : Globals) (s : Proc) (j : ℕ) (queue : List Passenger)
    → Inv g
    → g.live < 2 ^ 31
    → j < floors
    → get_elem? g.waiting_list j ≡ some queue
    → 40 < length queue
    → proc_open true true g s ≡ none
unfolding proc_open
proc_open_overflows g s j queue v few h e many =
    rw
      (compose-none g j
        (floor_line_overflows g (suc j) (length queue % 2 ^ 32) queue (omega arith) (omega arith) c
          at small many (omega (arith, length-le-total g.waiting_list j e)))
        h)
      refl
  where
    k : j ≡ suc j - 1
    k = omega arith

    at : get_elem? g.waiting_list (suc j - 1) ≡ some queue
    at = subst (λ n. get_elem? g.waiting_list n ≡ some queue) k e

    c : get_elem? g.waiting_on_floor (suc j - 1) ≡ some (length queue % 2 ^ 32)
    c =
        subst (λ n. get_elem? g.waiting_on_floor n ≡ some (length queue % 2 ^ 32)) k
          (ap (λ ns. get_elem? ns j) v.queued.counted ∙ counts-get g.waiting_list j e)

    small : length queue % 2 ^ 32 ≡ length queue
    small = omega (arith, length-le-total g.waiting_list j e)
