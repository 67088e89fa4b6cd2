-- ===== src/Elevator/Queues.antt =====
-- The waiting lists of the floors, with the counters that part3/elevator.c keeps beside them.
use kernal_elevator.Base.{
  ℕ, zero, suc, ◌+◌, ◌%◌, ◌^◌, ◌≤◌, ◌≡◌, refl, ap, subst, List, [], ◌∷◌, map, some, arith, All,
  length, get_elem?, set,
}
use kernal_elevator.Elevator.State.{Passenger, floors}

-- A human or a zombie who goes to a floor of the building.
pub record IsRider (p : Passenger) : Type 0 where
  pub kind : p.type ≤ 1
  pub above : 1 ≤ p.destination_floor
  pub below : p.destination_floor ≤ floors

-- One who waits at a given floor.
pub record WaitsAt (floor : ℕ) (p : Passenger) : Type 0 where
  pub start : p.start_floor ≡ floor
  pub kind : p.type ≤ 1
  pub above : 1 ≤ p.destination_floor
  pub below : p.destination_floor ≤ floors

pub All-IsRider : (floor : ℕ) (ps : List Passenger) → All (WaitsAt floor) ps → All IsRider ps
All-IsRider floor [] ws = tt
All-IsRider floor (p ∷ ps) (w, ws) = (omega arith, All-IsRider floor ps ws)

abbrev pub total : List (List Passenger) → ℕ
total [] = 0
total (q ∷ qs) = length q + total qs

-- What the `int` counters of the floors show.
abbrev pub counts : List (List Passenger) → List ℕ
counts = map (λ q. length q % 2 ^ 32)

-- From a floor upwards, each list holds passengers of its own floor.
abbrev pub Residents : ℕ → List (List Passenger) → Type 0
Residents floor [] = Unit
Residents floor (q ∷ qs) = All (WaitsAt floor) q × Residents (floor + 1) qs

pub record IsQueued (queues : List (List Passenger)) (on_floor : List ℕ) (num : ℕ) : Type 0 where
  pub size : length queues ≡ floors
  pub counted : on_floor ≡ counts queues
  pub waiting : num ≡ total queues % 2 ^ 32
  pub residents : Residents 1 queues

pub renumber : (q : List Passenger) (m n : ℕ) → All (WaitsAt m) q → m ≡ n → All (WaitsAt n) q
renumber q m n w e = subst (λ k. All (WaitsAt k) q) e w

pub Residents-get :
    (qs : List (List Passenger)) (floor i : ℕ) {q : List Passenger} {at : ℕ}
    → Residents floor qs
    → get_elem? qs i ≡ some q
    → at ≡ floor + i
    → All (WaitsAt at) q
Residents-get [] floor i r e k = cc
Residents-get (x ∷ qs) floor zero {q} {at} r e k =
    subst (All (WaitsAt at)) (cc) (renumber x floor at r.0 (omega arith))
Residents-get (x ∷ qs) floor (suc i) r e k = Residents-get qs (floor + 1) i r.1 e (omega arith)

pub Residents-set :
    (qs : List (List Passenger)) (floor i : ℕ) (q : List Passenger)
    → Residents floor qs
    → All (WaitsAt (floor + i)) q
    → Residents floor (set qs i q)
Residents-set [] floor i q r w = tt
Residents-set (x ∷ qs) floor zero q r w = (renumber q (floor + 0) floor w (omega arith), r.1)
Residents-set (x ∷ qs) floor (suc i) q r w = (
  r.0,
  Residents-set qs (floor + 1) i q r.1 (renumber q (floor + suc i) (floor + 1 + i) w (omega arith)),
)

pub total-set :
    (qs : List (List Passenger)) (i : ℕ) (q' : List Passenger) {q : List Passenger}
    → get_elem? qs i ≡ some q
    → total (set qs i q') + length q ≡ total qs + length q'
total-set [] i q' e = cc
total-set (x ∷ qs) zero q' {q} e = ground arith
total-set (x ∷ qs) (suc i) q' e = omega (arith, total-set qs i q' e)

pub counts-set :
    (qs : List (List Passenger)) (i : ℕ) (q : List Passenger)
    → counts (set qs i q) ≡ set (counts qs) i (length q % 2 ^ 32)
counts-set [] i q = refl
counts-set (x ∷ qs) zero q = refl
counts-set (x ∷ qs) (suc i) q = ap (λ ns. length x % 2 ^ 32 ∷ ns) (counts-set qs i q)

pub counts-get :
    (qs : List (List Passenger)) (i : ℕ) {q : List Passenger}
    → get_elem? qs i ≡ some q
    → get_elem? (counts qs) i ≡ some (length q % 2 ^ 32)
counts-get [] i e = cc
counts-get (x ∷ qs) zero e = cc
counts-get (x ∷ qs) (suc i) e = counts-get qs i e

pub length-le-total :
    (qs : List (List Passenger)) (i : ℕ) {q : List Passenger}
    → get_elem? qs i ≡ some q
    → length q ≤ total qs
length-le-total [] i e = cc
length-le-total (x ∷ qs) zero {q} e = ground arith
length-le-total (x ∷ qs) (suc i) e = omega (arith, length-le-total qs i e)
