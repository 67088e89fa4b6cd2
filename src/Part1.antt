-- ===== src/Part1.antt =====
-- part1/empty.c and part1/part1.c: two programs to be traced, as the system calls that their `main`
-- makes itself.
use kernal_elevator.Base.{ℕ, List, [], ◌∷◌}

pub data Made : Type 0 where
  sleeps : (seconds : ℕ) → Made

unfoldable pub empty_main : List Made
empty_main = []

unfoldable pub part1_main : List Made
part1_main = sleeps 1 ∷ sleeps 1 ∷ sleeps 1 ∷ sleeps 1 ∷ sleeps 1 ∷ sleeps 1 ∷ sleeps 1 ∷ []
