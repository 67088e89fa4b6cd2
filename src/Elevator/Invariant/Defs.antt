-- ===== src/Elevator/Invariant/Defs.antt =====
-- What holds of the variables of part3/elevator.c between two atomic pieces of its threads.
use kernal_elevator.Base.{ℕ, Bool, ◌+◌, ◌≤◌, ◌≡◌, ◌≢◌, ◌⊎◌, List, All, length}
use kernal_elevator.Elevator.State.{Passenger, Globals, capacity, floors}
use kernal_elevator.Elevator.Queues.{IsRider, IsQueued, total}

-- The car is at a floor, and its next floor is a neighbour.
pub record IsOnTrack (current next : ℕ) : Type 0 where
  pub current_pos : 1 ≤ current
  pub current_le : current ≤ floors
  pub next_pos : 1 ≤ next
  pub next_le : next ≤ floors
  pub adjacent : (next ≡ current + 1) ⊎ (current ≡ next + 1)

-- `loads` never passes the capacity, and counts at least the passengers aboard; a car that is
-- marked as not infected has no zombie.
pub record IsCabin (onboard : List Passenger) (loads status : ℕ) : Type 0 where
  pub loads_le : loads ≤ capacity
  pub aboard : length onboard ≤ loads
  pub status_le : status ≤ 1
  pub clean : status ≡ 0 → All (λ p. p.type ≢ 1) onboard
  pub riders : All IsRider onboard

-- An empty car is not infected. `blocks`: every live passenger block is in the car or in a waiting list, so none leaks.
pub record Inv (g : Globals) : Type 0 where
  pub track : IsOnTrack g.current_floor g.next_floor
  pub cabin : IsCabin g.onboard g.loads g.status
  pub empty_clean : g.loads ≡ 0 → g.status ≡ 0
  pub queued : IsQueued g.waiting_list g.waiting_on_floor g.num_waiting
  pub blocks : g.live ≡ length g.onboard + total g.waiting_list

-- The invariant is about the car's place and load, the queues and the blocks, and nothing else.
pub Inv-outside :
    {g : Globals} {s d t n c : ℕ} {b : Bool}
    → Inv g
    → Inv (record g {
      elevator = record g.elevator { state = s; deactiving = d; started = t };
      serviced = n;
      mutex = b;
      clock = c;
    })
Inv-outside v = record {
  track = v.track;
  cabin = v.cabin;
  empty_clean = v.empty_clean;
  queued = v.queued;
  blocks = v.blocks;
}
