-- ===== src/System/Locks/Bodies.antt =====
-- The body of a section under the mutex, piece by piece.
use kernal_elevator.Base.{◌≡◌, refl, inl, inr, Option, none, some, ◌>>=◌, Option-cases}
use kernal_elevator.Elevator.State.{Globals}

abbrev pub IsQuiet : (Globals → Option Globals) → Type 0
IsQuiet f = (g h : Globals) → f g ≡ some h → h.mutex ≡ g.mutex

-- The body of a section: its pieces, in order. What comes after a piece may depend on the state. No
-- piece is a call on the mutex.
pub data Body (A : Type 0) : Type 0 where
  ended : A → Body A
  piece : (f : Globals → Option Globals) → IsQuiet f → (Globals → Body A) → Body A

-- The result, as `with_mutex` takes it.
unfoldable pub run_body : {A : Type 0} → Body A → Globals → Option (A × Globals)
run_body (ended a) g = some (a, g)
run_body (piece f _ k) g = elim (f g) [ none ↦ none | some h ↦ run_body (k h) h ]

-- One body after the other, which takes its result.
unfoldable pub and_then : {A B : Type 0} → Body A → (A → Body B) → Body B
and_then (ended a) k = k a
and_then (piece f q c) k = piece f q (λ g. and_then (c g) k)

pub run_body-and_then :
    {A B : Type 0} (b : Body A) (k : A → Body B) (g : Globals)
    → run_body (and_then b k) g ≡ (run_body b g >>= λ r. run_body (k r.0) r.1)
unfolding run_body and_then
run_body-and_then (ended a) k g = refl
run_body-and_then (piece f q c) k g = elim (Option-cases (f g)) [
  | inl e ↦ rw (e, run_body) refl
  | inr (h, e) ↦ rw (e, run_body) (run_body-and_then (c h) k h)
]
