-- ===== src/User.antt =====
-- part3/producer.c and part3/consumer.c, the two programs that make the calls.
pub mod Requests
pub mod Programs
pub mod Sessions
pub mod Outcomes
use kernal_elevator.Base.{
  ℕ, ◌+◌, ◌-◌, ◌%◌, Bool, true, false, ◌&&◌, Option, none, some, List, [], ◌∷◌, Bytes, codes, ◌==◌,
  if◌then◌else◌, ◌>>=◌, int_mod,
}

-- `rand() % (max - min + 1) + min`, for the value that `rand` returns
unfoldable pub rnd : ℕ → ℕ → ℕ → ℕ
rnd min max rand = rand % (max - min + 1) + min

-- `do { dest = rnd(1, 10); } while (dest == start);` on the values that `rand` returns. `none` means
-- that the loop has not ended when they are used up.
unfoldable pub choose_dest : ℕ → List ℕ → Option ℕ
choose_dest start [] = none
choose_dest start (r ∷ rs) =
    let again = choose_dest start rs in if rnd 1 10 r == start then again else some (rnd 1 10 r)

pub record Request : Type 0 where
  pub type : ℕ
  pub start : ℕ
  pub dest : ℕ

unfoldable pub choose_request : List ℕ → Option Request
choose_request [] = none
choose_request (r ∷ []) = none
choose_request (r ∷ r' ∷ rs) = do
  let start = rnd 1 10 r'
  dest ← choose_dest start rs
  some (record { type = rnd 0 1 r; start = start; dest = dest })

-- `main` of the producer: its exit status, and the request that it issues.
unfoldable pub producer : ℕ → List ℕ → Option (ℕ × Option Request)
producer argc rands =
    if argc == 1 then (choose_request rands >>= λ r. some (0, some r)) else some (int_mod - 1, none)

-- `strcmp(a, b) == 0`
unfoldable pub same_text : Bytes → Bytes → Bool
same_text [] [] = true
same_text [] (_ ∷ _) = false
same_text (_ ∷ _) [] = false
same_text (a ∷ as') (b ∷ bs) = a == b && same_text as' bs

pub data Command : Type 0 where
  start_command : Command
  stop_command : Command

-- The call that the first argument names.
unfoldable pub command : Bytes → Option Command
command arg =
    if same_text arg (codes "--start")
    then some start_command
    else if same_text arg (codes "--stop")
    then some stop_command
    else none

-- `main` of the consumer, on its arguments behind the program's name: the exit status, and the call.
unfoldable pub consumer : List Bytes → ℕ × Option Command
consumer [] = (int_mod - 1, none)
consumer (arg ∷ []) = elim (command arg) [ none ↦ (int_mod - 1, none) | some c ↦ (0, some c) ]
consumer (arg ∷ _ ∷ _) = (int_mod - 1, none)
