-- ===== src/Elevator/Service/Sweep.antt =====
-- part3/elevator.c: the sweep of the car up and down the shaft, by `moveElevator`.
use native.Mathlib.Nat.{zero-add, suc-add}
use native.Mathlib.Decide.{dec_le}
use kernal_elevator.Base.{
  ℕ, zero, suc, ◌+◌, ◌-◌, ◌≤◌, ◌<◌, ◌≡◌, ◌∙◌, ap, inl, inr, arith, if◌then◌else◌, ◌==◌,
}
use kernal_elevator.Elevator.State.{floors}
use kernal_elevator.Elevator.Invariant.Defs.{IsOnTrack}
use kernal_elevator.Elevator.Invariant.Motion.{Position, sweep}

-- So many moves.
unfoldable pub moves : ℕ → Position → Position
moves zero p = p
moves (suc k) p = moves k (sweep p)

moves-add : (j k : ℕ) (p : Position) → moves (j + k) p ≡ moves k (moves j p)
unfolding moves
moves-add zero k p = rw zero-add
moves-add (suc j) k p = rw suc-add (moves-add j k (sweep p))

abbrev at_up : ℕ → Position
at_up m = record { current = m; next = if m == floors then m - 1 else m + 1 }

abbrev at_down : ℕ → Position
at_down m = record { current = m; next = if m == 1 then m + 1 else m - 1 }

climb :
    (k c m : ℕ)
    → 1 ≤ c
    → c < floors
    → c + k ≡ m
    → m ≤ floors
    → moves k (record { current = c; next = c + 1 }) ≡ at_up m
unfolding moves sweep
climb zero c m h l e n = ground arith
climb (suc k) c m h l e n = ground (arith, climb k (c + 1) m)

sink :
    (k c m : ℕ)
    → 1 < c
    → c ≤ floors
    → m + k ≡ c
    → 1 ≤ m
    → moves k (record { current = c; next = c - 1 }) ≡ at_down m
unfolding moves sweep
sink zero c m h l e n = ground arith
sink (suc k) c m h l e n = ground (arith, sink k (c - 1) m)

-- The start of a climb or a descent.
going_up :
    (p : Position)
    → p.next ≡ p.current + 1
    → p ≡ record { current = p.current; next = p.current + 1 }
going_up p e = λ i. record { current = p.current; next = e i }

going_down :
    (p : Position)
    → p.current ≡ p.next + 1
    → p ≡ record { current = p.current; next = p.current - 1 }
going_down p e = ap (λ n. record { current = p.current; next = n }) (omega arith)

abbrev pub Visits : Position → ℕ → Type 0
Visits p floor = (k : ℕ) × (k ≤ 17) × ((moves k p).current ≡ floor)

Visits-going_up :
    (c floor : ℕ)
    → 1 ≤ c
    → c < floors
    → 1 ≤ floor
    → floor ≤ floors
    → Visits (record { current = c; next = c + 1 }) floor
Visits-going_up c floor h l hf lf = elim (dec_le c floor) [
  | yes d ↦ (
    floor - c,
    omega arith,
    ap (λ (p : Position). p.current) (climb (floor - c) c floor h l (omega arith) lf),
  )
  | no d ↦ (
    (floors - c) + (floors - floor),
    omega arith,
    ap (λ (p : Position). p.current)
        (moves-add (floors - c) (floors - floor) _
          ∙ ap (moves (floors - floor))
              (climb (floors - c) c floors h l (omega arith) (omega arith))
          ∙ sink (floors - floor) floors floor (omega arith) (omega arith) (omega arith) hf),
  )
]

Visits-going_down :
    (c floor : ℕ)
    → 1 < c
    → c ≤ floors
    → 1 ≤ floor
    → floor ≤ floors
    → Visits (record { current = c; next = c - 1 }) floor
Visits-going_down c floor h l hf lf = elim (dec_le floor c) [
  | yes d ↦ (
    c - floor,
    omega arith,
    ap (λ (p : Position). p.current) (sink (c - floor) c floor h l (omega arith) hf),
  )
  | no d ↦ (
    (c - 1) + (floor - 1),
    omega arith,
    ap (λ (p : Position). p.current)
        (moves-add (c - 1) (floor - 1) _
          ∙ ap (moves (floor - 1)) (sink (c - 1) c 1 h l (omega arith) (omega arith))
          ∙ climb (floor - 1) 1 floor (omega arith) (omega arith) (omega arith) lf),
  )
]

-- From wherever the car is, it stands at any given floor after at most 17 moves.
pub sweep-Visits :
    (p : Position) (floor : ℕ)
    → IsOnTrack p.current p.next
    → 1 ≤ floor
    → floor ≤ floors
    → Visits p floor
sweep-Visits p floor t hf lf = elim t.adjacent [
  | inl e ↦ rw (going_up p e) (Visits-going_up p.current floor t.current_pos (omega arith) hf lf)
  | inr e ↦ rw (going_down p e) (Visits-going_down p.current floor (omega arith) t.current_le hf lf)
]
