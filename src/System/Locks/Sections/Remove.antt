-- ===== src/System/Locks/Sections/Remove.antt =====
-- The section of `stop_elevator`, statement by statement.
use kernal_elevator.Base.{◌≡◌, refl, some, List, [], ◌∷◌, ◌++◌}
use kernal_elevator.Elevator.State.{Passenger, Globals, move_all}
use kernal_elevator.Elevator.Calls.{stop_body}
use kernal_elevator.System.Locks.Bodies.{Body, ended, run_body}
use kernal_elevator.System.Locks.Sections.Defs.{assign, look}

abbrev pub set_onboard : List Passenger → Globals → Globals
set_onboard ps g = record g { elevator = record g.elevator { onboard = ps } }

-- `list_for_each_safe`: each `list_move_tail` takes the first of the car to the list to delete.
unfoldable pub empty_pieces : List Passenger → List Passenger → Body (List Passenger)
empty_pieces [] delete_list = ended delete_list
empty_pieces (p ∷ ps) delete_list =
    assign (set_onboard ps) (λ g. refl) (empty_pieces ps (delete_list ++ p ∷ []))

unfoldable pub stop_pieces : Body (List Passenger)
unfolding empty_pieces
stop_pieces = look (λ g. empty_pieces g.onboard [])

pub empty_pieces_lem :
    (ps delete_list : List Passenger) (g : Globals)
    → run_body (empty_pieces ps delete_list) (set_onboard ps g)
      ≡ some (move_all ps delete_list, set_onboard [] g)
unfolding run_body empty_pieces move_all
empty_pieces_lem [] delete_list g = refl
empty_pieces_lem (p ∷ ps) delete_list g = empty_pieces_lem ps (delete_list ++ p ∷ []) g

-- Whole, it is the body of the model.
pub stop_pieces_lem : (g : Globals) → run_body stop_pieces g ≡ stop_body g
unfolding run_body stop_pieces stop_body
stop_pieces_lem g = empty_pieces_lem g.onboard [] g
