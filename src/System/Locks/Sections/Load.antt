-- ===== src/System/Locks/Sections/Load.antt =====
-- The section of `loadPassengers`, statement by statement. `floor` is read with the list: nobody but
-- the scheduler's own thread sets it.
use kernal_elevator.Base.{
  ℕ, refl, ◌&&◌, none, some, List, [], ◌∷◌, ◌++◌, ◌==◌, if◌then◌else◌, incr, decr, sle, get_elem?,
  set, modify,
}
use kernal_elevator.Elevator.State.{Passenger, Globals, capacity}
use kernal_elevator.System.Locks.Bodies.{Body, ended}
use kernal_elevator.System.Locks.Sections.Defs.{fault, assign, look}

-- What the conditions of the loop make of a passenger.
pub data Fate : Type 0 where
  infects : Fate
  joins : Fate
  stays : Fate

unfoldable pub fate : ℕ → Passenger → ℕ → ℕ → Fate
fate floor p loads status =
    if p.start_floor == floor
    then (if sle (incr loads) capacity
        then (if p.type == 1 then infects else if p.type == 0 && status == 0 then joins else stays)
        else stays)
    else stays

-- `list_move_tail(temp, &elevator.onboard)`
abbrev pub take_aboard : ℕ → Passenger → List Passenger → Globals → Globals
take_aboard i p rest g = record g {
  elevator = record g.elevator { onboard = g.onboard ++ p ∷ [] };
  waiting_list = set g.waiting_list i rest;
}

abbrev pub infect : Globals → Globals
infect g = record g { elevator = record g.elevator { status = 1 } }

abbrev pub burden : Globals → Globals
burden g = record g { elevator = record g.elevator { loads = incr g.loads } }

abbrev pub one_less_on : Passenger → Globals → Globals
one_less_on p g = record g {
  waiting_on_floor = modify g.waiting_on_floor (decr p.start_floor) decr;
}

abbrev pub one_less : Globals → Globals
one_less g = record g { num_waiting = decr g.num_waiting }

abbrev pub counted_in : Passenger → Body ℕ → Body ℕ
counted_in p b =
    assign burden (λ g. refl) (assign (one_less_on p) (λ g. refl) (assign one_less (λ g. refl) b))

-- The loop over the rest of the list of index `i`, behind those who stay.
unfoldable pub load_pieces : ℕ → ℕ → List Passenger → List Passenger → ℕ → Body ℕ
unfolding fate
load_pieces i floor [] stay loaded = ended loaded
load_pieces i floor (p ∷ ps) stay loaded = look (λ g. elim (fate floor p g.loads g.status) [
  | infects ↦
      assign (take_aboard i p (stay ++ ps)) (λ h. refl)
        (assign infect (λ h. refl) (counted_in p (load_pieces i floor ps stay 1)))
  | joins ↦
      assign (take_aboard i p (stay ++ ps)) (λ h. refl)
        (counted_in p (load_pieces i floor ps stay 1))
  | stays ↦ load_pieces i floor ps (stay ++ p ∷ []) loaded
])

unfoldable pub load_section_pieces : Body ℕ
unfolding load_pieces
load_section_pieces = look (λ g. elim (get_elem? g.waiting_list (decr g.current_floor)) [
  | none ↦ fault 0
  | some queue ↦ load_pieces (decr g.current_floor) g.current_floor queue [] 0
])
