-- ===== src/Elevator/Boarding/Order.antt =====
-- The order in which the passengers of one type leave a queue.
use kernal_elevator.Base.{
  ℕ, ◌+◌, ◌≡◌, refl, inl, inr, false, List, [], ◌∷◌, ◌++◌, arith, Bool-cases, ◌==◌, if◌then◌else◌,
}
use kernal_elevator.Elevator.State.{Passenger}
use kernal_elevator.Elevator.Boarding.Spec.{
  admits, infect, boarders, stayers, boarders_of_admits, stayers_of_admits,
}

-- Those of a type, in their order.
abbrev pub of_type : ℕ → List Passenger → List Passenger
of_type k [] = []
of_type k (p ∷ ps) = let rest = of_type k ps in if p.type == k then p ∷ rest else rest

pub of_type-append :
    (k : ℕ) (ps qs : List Passenger) → of_type k (ps ++ qs) ≡ of_type k ps ++ of_type k qs
of_type-append k [] qs = refl
of_type-append k (p ∷ ps) qs = ground (arith, of_type-append k ps qs)

-- Once one is refused, nobody of his type boards.
pub none_of_type :
    (p : Passenger) (loads status : ℕ) (ps : List Passenger)
    → admits loads status p ≡ false
    → of_type p.type (boarders loads status ps) ≡ []
unfolding boarders
none_of_type p loads status [] e = refl
none_of_type p loads status (q ∷ ps) e = elim (Bool-cases (admits loads status q)) [
  | inl t ↦
      rw (boarders_of_admits loads status q ps t)
        (ground (arith, none_of_type p (loads + 1) (infect status q) ps))
  | inr f ↦ rw (f, boarders) (none_of_type p loads status ps e)
]

-- Of each type, those who board stood before those who stay.
pub boarders-stayers-of_type :
    (k loads status : ℕ) (ps : List Passenger)
    → of_type k ps ≡ of_type k (boarders loads status ps) ++ of_type k (stayers loads status ps)
unfolding boarders stayers
boarders-stayers-of_type k loads status [] = refl
boarders-stayers-of_type k loads status (p ∷ ps) = elim (Bool-cases (admits loads status p)) [
  | inl t ↦
      rw (boarders_of_admits loads status p ps t, stayers_of_admits loads status p ps t)
        (ground (arith, boarders-stayers-of_type k (loads + 1) (infect status p) ps))
  | inr f ↦
      rw (f, boarders, stayers)
        (ground
          (arith, boarders-stayers-of_type k loads status ps, none_of_type p loads status ps f))
]
