-- ===== src/System/Locks/Sections/Request.antt =====
-- The section of `issue_request`, statement by statement.
use kernal_elevator.Base.{
  ◌≡◌, ◌+◌, ◌++◌, Bool, true, false, Option, none, some, [], ◌∷◌, ◌==◌, ◌>>=◌, if◌then◌else◌,
  get_elem?, set, incr, decr, arith,
}
use kernal_elevator.Elevator.State.{Passenger, Globals, with_mutex}
use kernal_elevator.Elevator.Calls.{request_body, request_section, add_waiting}
use kernal_elevator.System.Locks.Bodies.{Body, ended, piece, run_body, IsQuiet}

-- `kmalloc` and the three fields: without memory the first of them is written through NULL.
unfoldable pub kmalloc_passenger : Bool → Globals → Option Globals
kmalloc_passenger true g = some (record g { live = g.live + 1 })
kmalloc_passenger false g = none

unfoldable pub enqueue : Passenger → Globals → Option Globals
enqueue p g = do
  let i = decr p.start_floor
  queue ← get_elem? g.waiting_list i
  some (record g { waiting_list = set g.waiting_list i (queue ++ p ∷ []) })

unfoldable pub count_on_floor : Passenger → Globals → Option Globals
count_on_floor p g = do
  let i = decr p.start_floor
  count ← get_elem? g.waiting_on_floor i
  some (record g { waiting_on_floor = set g.waiting_on_floor i (incr count) })

unfoldable pub count_in_all : Globals → Option Globals
count_in_all g = some (record g { num_waiting = incr g.num_waiting })

pub some-IsQuiet : IsQuiet some
some-IsQuiet g h e = ground arith

pub kmalloc_passenger-IsQuiet : (allocated : Bool) → IsQuiet (kmalloc_passenger allocated)
unfolding kmalloc_passenger
kmalloc_passenger-IsQuiet true g h e = ground arith
kmalloc_passenger-IsQuiet false g h e = ground arith

pub enqueue-IsQuiet : (p : Passenger) → IsQuiet (enqueue p)
unfolding enqueue
enqueue-IsQuiet p g h e = ground arith

pub count_on_floor-IsQuiet : (p : Passenger) → IsQuiet (count_on_floor p)
unfolding count_on_floor
count_on_floor-IsQuiet p g h e = ground arith

pub count_in_all-IsQuiet : IsQuiet count_in_all
unfolding count_in_all
count_in_all-IsQuiet g h e = ground arith

-- `deactiving` is read first, and a piece of its own.
unfoldable pub request_pieces : Bool → Passenger → Body (Unit {0})
request_pieces allocated p =
    let counted = piece count_in_all count_in_all-IsQuiet (λ _. ended tt) in
    let queued = piece (count_on_floor p) (count_on_floor-IsQuiet p) (λ _. counted) in
    let filled = piece (enqueue p) (enqueue-IsQuiet p) (λ _. queued) in
    let checked =
      piece (kmalloc_passenger allocated) (kmalloc_passenger-IsQuiet allocated) (λ _. filled) in
    piece some some-IsQuiet (λ g. if g.deactiving == 0 then checked else ended tt)

pub request_body_pieces :
    (allocated : Bool) (p : Passenger) (g : Globals)
    → run_body (request_pieces allocated p) g ≡ request_body allocated p g
unfolding run_body request_pieces request_body add_waiting kmalloc_passenger enqueue count_on_floor
    count_in_all
request_body_pieces allocated p g = ground arith

-- The section of a request, taken piece by piece under the lock, does what `request_section`
-- does in one step, the fault without memory included.
pub request_pieces_lem :
    (allocated : Bool) (p : Passenger) (g : Globals)
    → with_mutex true tt (run_body (request_pieces allocated p)) g
      ≡ request_section true allocated p g
unfolding request_section with_mutex run_body request_pieces request_body add_waiting
    kmalloc_passenger enqueue count_on_floor count_in_all
request_pieces_lem allocated p g = ground arith
