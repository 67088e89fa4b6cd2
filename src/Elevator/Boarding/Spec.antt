-- ===== src/Elevator/Boarding/Spec.antt =====
-- What one stop at a floor should do, in plain arithmetic: who leaves, who boards, who stays.
use kernal_elevator.Base.{
  ℕ, ◌≡◌, refl, arith, zero, suc, ◌+◌, Bool, true, false, ◌&&◌, ◌||◌, List, [], ◌∷◌, ltb, ◌==◌,
  if◌then◌else◌,
}
use kernal_elevator.Elevator.State.{Passenger, capacity}

-- There is room, and a human does not meet an infected elevator.
abbrev pub admits : ℕ → ℕ → Passenger → Bool
admits loads status p = ltb loads capacity && (p.type == 1 || p.type == 0 && status == 0)

abbrev pub infect : ℕ → Passenger → ℕ
infect status p = if p.type == 1 then 1 else status

-- Of a queue, in its order, with so many aboard and in that status: those who board.
unfoldable pub boarders : ℕ → ℕ → List Passenger → List Passenger
boarders loads status [] = []
boarders loads status (p ∷ ps) = elim (admits loads status p) [
  | true ↦ p ∷ boarders (loads + 1) (infect status p) ps
  | false ↦ boarders loads status ps
]

-- And those who stay.
unfoldable pub stayers : ℕ → ℕ → List Passenger → List Passenger
stayers loads status [] = []
stayers loads status (p ∷ ps) = elim (admits loads status p) [
  | true ↦ stayers (loads + 1) (infect status p) ps
  | false ↦ p ∷ stayers loads status ps
]

unfoldable pub infect_all : ℕ → List Passenger → ℕ
infect_all status [] = status
infect_all status (p ∷ ps) = infect_all (infect status p) ps

-- Of the passengers aboard: those who arrive at a floor, and those who ride on.
unfoldable pub arrivals : ℕ → List Passenger → List Passenger
arrivals floor [] = []
arrivals floor (p ∷ ps) =
    let rest = arrivals floor ps in if p.destination_floor == floor then p ∷ rest else rest

unfoldable pub riders : ℕ → List Passenger → List Passenger
riders floor [] = []
riders floor (p ∷ ps) =
    let rest = riders floor ps in if p.destination_floor == floor then rest else p ∷ rest

-- A counter taken down, or up, so many times.
unfoldable pub repeat : (ℕ → ℕ) → ℕ → ℕ → ℕ
repeat f zero n = n
repeat f (suc k) n = repeat f k (f n)

unfoldable pub flag : List Passenger → ℕ → ℕ
flag [] n = n
flag (_ ∷ _) n = 1

pub flag_one : (ps : List Passenger) → flag ps 1 ≡ 1
unfolding flag
flag_one [] = refl
flag_one (p ∷ ps) = refl

pub suc-add-eq : (m n : ℕ) → m + 1 + n ≡ m + suc n
suc-add-eq m n = omega arith

module _ (loads status : ℕ) (p : Passenger) (ps : List Passenger) where
  pub boarders_of_admits :
      admits loads status p ≡ true
      → boarders loads status (p ∷ ps) ≡ p ∷ boarders (loads + 1) (infect status p) ps
  unfolding boarders
  boarders_of_admits e = rw (e, boarders)

  pub stayers_of_admits :
      admits loads status p ≡ true
      → stayers loads status (p ∷ ps) ≡ stayers (loads + 1) (infect status p) ps
  unfolding stayers
  stayers_of_admits e = rw (e, stayers)
