-- ===== src/Elevator/Calls.antt =====
-- part3/elevator.c: the system calls `start_elevator`, `issue_request` and `stop_elevator`. Each is
-- its entry, up to the lock, and its section, from there on, composed by the last definition.
use kernal_elevator.Base.{
  ℕ, ◌+◌, Bool, ◌||◌, Option, none, some, List, [], ◌∷◌, ◌++◌, ◌>>=◌, get_elem?, set, ◌==◌,
  if◌then◌else◌, incr, decr, slt,
}
use kernal_elevator.Elevator.State.{Passenger, Globals, floors, with_mutex, move_all, free_list}

unfoldable pub start_elevator : Globals → ℕ × Globals
start_elevator g =
    if g.started == 0
    then (0, record g { elevator = record g.elevator { started = 1; deactiving = 0 } })
    else (1, g)

-- The checks before the lock.
unfoldable pub request_refused : ℕ → ℕ → ℕ → Globals → Bool
request_refused start_floor destination_floor type g =
    g.started == 0
    || (slt type 0 || slt 1 type)
    || (slt start_floor 1 || slt floors start_floor)
    || (slt destination_floor 1 || slt floors destination_floor)

-- `list_add_tail` to the list of the floor, and the two counters; an index out of range is a fault.
unfoldable pub add_waiting : Passenger → Globals → Option Globals
add_waiting p g = do
  let i = decr p.start_floor
  queue ← get_elem? g.waiting_list i
  count ← get_elem? g.waiting_on_floor i
  some (record g {
    waiting_list = set g.waiting_list i (queue ++ p ∷ []);
    waiting_on_floor = set g.waiting_on_floor i (incr count);
    num_waiting = incr g.num_waiting;
  })

-- The body under the lock. If kmalloc gives NULL, `p->type = type` writes through it.
unfoldable pub request_body : Bool → Passenger → Globals → Option (Unit {0} × Globals)
request_body allocated p g =
    if g.deactiving == 0
    then (if allocated
        then (add_waiting p (record g { live = g.live + 1 }) >>= λ h. some (tt, h))
        else none)
    else some (tt, g)

unfoldable pub request_section : Bool → Bool → Passenger → Globals → Option (Unit {0} × Globals)
unfolding request_body with_mutex
request_section locked allocated p g = with_mutex locked tt (request_body allocated p) g

unfoldable pub issue_request : Bool → Bool → ℕ → ℕ → ℕ → Globals → Option (ℕ × Globals)
unfolding request_refused request_section
issue_request locked allocated start_floor destination_floor type g =
    let p : Passenger = record {
      type = type;
      start_floor = start_floor;
      destination_floor = destination_floor;
    } in
    if request_refused start_floor destination_floor type g
    then some (1, g)
    else (request_section locked allocated p g >>= λ r. some (0, r.1))

-- Both checks, and the two flags that are set before the lock.
unfoldable pub stop_entry : Globals → Option Globals
stop_entry g =
    if g.started == 0
    then none
    else if g.deactiving == 0
    then some (record g { elevator = record g.elevator { deactiving = 1; started = 0 } })
    else none

-- The list of the passengers to delete, and the state without them.
unfoldable pub stop_body : Globals → Option (List Passenger × Globals)
unfolding move_all
stop_body g =
    some (move_all g.onboard [], record g { elevator = record g.elevator { onboard = [] } })

unfoldable pub stop_section : Bool → Globals → Option (Unit {0} × Globals)
unfolding stop_body with_mutex free_list
stop_section locked g = do
  (delete_list, h) ← with_mutex locked [] stop_body g
  some (tt, free_list delete_list h)

unfoldable pub stop_elevator : Bool → Globals → Option (ℕ × Globals)
stop_elevator locked g = elim (stop_entry g) [
  | none ↦ some (1, g)
  | some h ↦ stop_section locked h >>= λ r. some (0, r.1)
]
