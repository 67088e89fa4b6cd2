-- ===== src/System/Locks/Sections/Defs.antt =====
-- Pieces that always return, and one that never does.
use kernal_elevator.Base.{◌≡◌, refl, sym, ap, ◌∙◌, none, some, List, some_unique}
use kernal_elevator.Elevator.State.{Passenger, Globals}
use kernal_elevator.System.Locks.Bodies.{Body, ended, piece, IsQuiet}

pub assign-IsQuiet :
    (f : Globals → Globals) → ((g : Globals) → (f g).mutex ≡ g.mutex) → IsQuiet (λ g. some (f g))
assign-IsQuiet f q g h e = sym (ap (λ (k : Globals). k.mutex) (some_unique refl e)) ∙ q g

-- An assignment that leaves the mutex alone.
abbrev pub assign :
    {A : Type 0} (f : Globals → Globals) → ((g : Globals) → (f g).mutex ≡ g.mutex) → Body A → Body A
assign f q b = piece (λ g. some (f g)) (assign-IsQuiet f q) (λ _. b)

-- A look at the variables.
abbrev pub look : {A : Type 0} → (Globals → Body A) → Body A
look k = piece some (assign-IsQuiet (λ g. g) (λ g. refl)) k

pub fault-IsQuiet : IsQuiet (λ g. none)
fault-IsQuiet g h e = cc

-- An index out of range
abbrev pub fault : {A : Type 0} → A → Body A
fault a = piece (λ g. none) fault-IsQuiet (λ g. ended a)

abbrev pub with_lists : List (List Passenger) → Globals → Globals
with_lists qs g = record g { waiting_list = qs }
