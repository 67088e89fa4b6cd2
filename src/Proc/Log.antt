-- ===== src/Proc/Log.antt =====
-- part3/elevator.c: `print_passengers` and `print_who_on_it`, as the lines that they log.
use kernal_elevator.Base.{ℕ, zero, suc, ◌+◌, List, [], ◌∷◌, ◌++◌, Option, some, ◌>>=◌, get_elem?}
use kernal_elevator.Elevator.State.{Passenger, Globals}

pub data Line : Type 0 where
  printing_all_floors : Line
  floor_number : ℕ → Line
  printing_people : Line
  passenger : (type start destination : ℕ) → Line

-- `list_for_each … printk(…)`
unfoldable pub log_list : List Passenger → List Line
log_list [] = []
log_list (p ∷ ps) = passenger p.type p.start_floor p.destination_floor ∷ log_list ps

unfoldable pub print_who_on_it : Globals → List Line
unfolding log_list
print_who_on_it g = printing_people ∷ log_list g.onboard

-- The loop over the `n` floors from index `i` on; an index out of range is a fault.
unfoldable pub log_floors : Globals → ℕ → ℕ → Option (List Line)
log_floors g zero i = some []
log_floors g (suc n) i = do
  queue ← get_elem? g.waiting_list i
  rest ← log_floors g n (i + 1)
  some (floor_number (i + 1) ∷ (log_list queue ++ rest))

unfoldable pub print_passengers : Globals → Option (List Line)
print_passengers g = do lines ← log_floors g 10 0; some (printing_all_floors ∷ lines)
