-- ===== src/Elevator/Boarding/Rules.antt =====
-- The rules that the specification of boarding obeys.
use kernal_elevator.Base.{
  ℕ, zero, suc, ◌+◌, ◌-◌, ◌%◌, ◌^◌, ◌≤◌, ◌≡◌, refl, ◌≢◌, ◌⊎◌, inl, inr, List, [], ◌∷◌, ◌++◌, arith,
  All, Bool-cases, length, decr, decr-mod, Merge, done, left, right,
}
use kernal_elevator.Elevator.State.{Passenger, capacity}
use kernal_elevator.Elevator.Boarding.Spec.{
  admits, infect, boarders, stayers, infect_all, repeat, suc-add-eq,
}

pub boarders-stayers-Merge :
    (loads status : ℕ) (ps : List Passenger)
    → Merge (boarders loads status ps) (stayers loads status ps) ps
unfolding boarders stayers
boarders-stayers-Merge loads status [] = done
boarders-stayers-Merge loads status (p ∷ ps) = elim (Bool-cases (admits loads status p)) [
  | inl e ↦
      rw (e, boarders, stayers) (left (boarders-stayers-Merge (loads + 1) (infect status p) ps))
  | inr e ↦ rw (e, boarders, stayers) (right (boarders-stayers-Merge loads status ps))
]

pub boarders_fit :
    (loads status : ℕ) (ps : List Passenger)
    → loads ≤ capacity
    → loads + length (boarders loads status ps) ≤ capacity
unfolding boarders
boarders_fit loads status [] h = omega arith
boarders_fit loads status (p ∷ ps) h =
    ground (arith, boarders_fit (loads + 1) (infect status p) ps, boarders_fit loads status ps)

-- An infected elevator stays infected while it loads.
pub infect_all_mono : (status : ℕ) (ps : List Passenger) → status ≢ 0 → infect_all status ps ≢ 0
unfolding infect_all
infect_all_mono status [] h = h
infect_all_mono status (p ∷ ps) h = infect_all_mono (infect status p) ps (ground arith)

pub infect_all_zero :
    (status : ℕ) (ps : List Passenger)
    → infect_all status ps ≡ 0
    → (status ≡ 0) × All (λ p. p.type ≢ 1) ps
unfolding infect_all
infect_all_zero status [] h = (h, tt)
infect_all_zero status (p ∷ ps) h = ground (arith, infect_all_zero (infect status p) ps h)

pub infect_all-le : (status : ℕ) (ps : List Passenger) → status ≤ 1 → infect_all status ps ≤ 1
unfolding infect_all
infect_all-le status [] h = h
infect_all-le status (p ∷ ps) h = infect_all-le (infect status p) ps (ground arith)

pub infect_all_nil :
    (status : ℕ) (ps : List Passenger) → length ps ≤ 0 → infect_all status ps ≡ status
unfolding infect_all
infect_all_nil status [] h = refl
infect_all_nil status (p ∷ ps) h = absurd (omega arith)

-- A human boards only an elevator that was not infected, and no zombie boards before.
pub boarders_human :
    (loads status : ℕ) (ps xs : List Passenger) (p : Passenger) (ys : List Passenger)
    → boarders loads status ps ≡ xs ++ p ∷ ys
    → p.type ≡ 0
    → (status ≡ 0) × All (λ q. q.type ≢ 1) xs
unfolding boarders
boarders_human loads status [] [] p ys e h = cc
boarders_human loads status [] (x ∷ xs) p ys e h = cc
boarders_human loads status (q ∷ ps) [] p ys e h =
    ground (arith, boarders_human loads status ps [] p ys)
boarders_human loads status (q ∷ ps) (x ∷ xs) p ys e h = ground (
  arith,
  boarders_human (loads + 1) (infect status q) ps xs p ys,
  boarders_human loads status ps (x ∷ xs) p ys,
)

-- Who stays has no place: the elevator is full, or it is infected and he is a human.
pub stayers_refused :
    (loads status : ℕ) (ps : List Passenger)
    → All (λ p. p.type ≤ 1) ps
    → loads ≤ capacity
    → All
        (λ p.
          (loads + length (boarders loads status ps) ≡ capacity)
          ⊎ ((p.type ≡ 0) × (infect_all status (boarders loads status ps) ≢ 0)))
        (stayers loads status ps)
unfolding boarders stayers infect_all
stayers_refused loads status [] ts h = tt
stayers_refused loads status (p ∷ ps) (t, ts) h = elim (Bool-cases (admits loads status p)) [
  | inl e ↦
      rw (e, boarders, stayers)
        (rw (← suc-add-eq loads (length (boarders (loads + 1) (infect status p) ps)))
          (stayers_refused (loads + 1) (infect status p) ps ts (ground arith)))
  | inr e ↦
      rw (e, boarders, stayers)
        (
          ground (
            arith,
            boarders_fit loads status ps h,
            infect_all_mono status (boarders loads status ps),
          ),
          stayers_refused loads status ps ts h,
        )
]

-- A counter that holds `t` modulo 2 ^ 32 holds `t - k` after `k` decrements.
pub repeat-decr : (k t : ℕ) → k ≤ t → repeat decr k (t % 2 ^ 32) ≡ (t - k) % 2 ^ 32
unfolding repeat
repeat-decr zero t h = omega arith
repeat-decr (suc k) t h =
    rw (decr-mod t (omega arith), repeat-decr k (t - 1) (omega arith)) (omega arith)
