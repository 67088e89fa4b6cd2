-- ===== src/System/Locks/Sections.antt =====
-- The sections of part3/elevator.c under the mutex, each as a whole and piece by piece.
pub mod Defs
pub mod Request
pub mod Remove
pub mod Unload
pub mod Load
pub mod LoadWhole
pub mod Evacuate
use kernal_elevator.Base.{ℕ, ◌≡◌, Bool, Option, List, []}
use kernal_elevator.Elevator.State.{Passenger, Globals}
use kernal_elevator.Elevator.Calls.{request_body, stop_body}
use kernal_elevator.Elevator.Boarding.{unload_body, load_body}
use kernal_elevator.Elevator.Setup.{remove_body}
use kernal_elevator.System.Locks.Bodies.{Body, run_body}
use Request.{request_pieces, request_body_pieces}
use Remove.{stop_pieces, stop_pieces_lem}
use Unload.{unload_section_pieces, unload_section_pieces_lem}
use Load.{load_section_pieces}
use LoadWhole.{load_section_pieces_lem}
use Evacuate.{evacuate_pieces, evacuate_pieces_lem}

-- A request, whether or not kmalloc has memory, a stop, the two of the scheduler, and that of
-- `removeAllPassengers`.
pub data Section : Type 0 where
  requests : (allocated : Bool) → Passenger → Section
  stops : Section
  unloads : Section
  loads : Section
  evacuates : Section

abbrev pub Result : Section → Type 0
Result (requests _ _) = Unit
Result stops = List Passenger
Result unloads = ℕ × List Passenger
Result loads = ℕ
Result evacuates = List Passenger

unfoldable pub body_of : (c : Section) → Body (Result c)
body_of (requests allocated p) = request_pieces allocated p
body_of stops = stop_pieces
body_of unloads = unload_section_pieces
body_of loads = load_section_pieces
body_of evacuates = evacuate_pieces

unfoldable pub atomic_body : (c : Section) → Globals → Option (Result c × Globals)
atomic_body (requests allocated p) = request_body allocated p
atomic_body stops = stop_body
atomic_body unloads = unload_body
atomic_body loads = load_body
atomic_body evacuates = remove_body

-- What the thread has computed if the lock is interrupted.
abbrev pub skipped : (c : Section) → Result c
skipped (requests _ _) = tt
skipped stops = []
skipped unloads = (0, [])
skipped loads = 0
skipped evacuates = []

-- The sections under the mutex of `issue_request`, `stop_elevator`, `unloadPassengers`,
-- `loadPassengers` and `removeAllPassengers`, taken statement by statement, have the result and
-- leave the variables of the bodies that the model takes in one step, a fault included.
pub body_of_lem : (c : Section) (g : Globals) → run_body (body_of c) g ≡ atomic_body c g
unfolding body_of atomic_body
body_of_lem (requests allocated p) g = request_body_pieces allocated p g
body_of_lem stops g = stop_pieces_lem g
body_of_lem unloads g = unload_section_pieces_lem g
body_of_lem loads g = load_section_pieces_lem g
body_of_lem evacuates g = evacuate_pieces_lem g
