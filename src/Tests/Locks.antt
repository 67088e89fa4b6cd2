-- ===== src/Tests/Locks.antt =====
-- The mutex at a finer grain, on concrete runs.
use kernal_elevator.Base.{◌≡◌, ◌≤◌, refl, true, false, [], ◌∷◌, length, incr, decr}
use kernal_elevator.System.Locks.Bodies.{ended, run_body}
use kernal_elevator.System.Locks.{
  outside, inside, Locks, locked, unlocked, Moves, still, on, arrive, lock, work, finish, unlock,
  within, Serial,
}
use kernal_elevator.System.Locks.Sections.{
  requests, stops, unloads, body_of, atomic_body, body_of_lem,
}
use kernal_elevator.System.Exclusion.{calm_exclusion, calm-Serial, interrupt_breaks}
use kernal_elevator.System.Locks.Sections.Request.{
  request_pieces, kmalloc_passenger, enqueue, count_on_floor, count_in_all,
}
use kernal_elevator.Tests.States.{human, running, called, riding}

abbrev alone : Locks
alone = record { globals = running; threads = [] }

abbrev entered : Locks
entered = record { globals = running; threads = outside (requests true human) ∷ [] }

abbrev finished : Locks
finished = record { globals = called; threads = [] }

-- Seven pieces of one request.
abbrev request_run : Moves alone finished
unfolding body_of request_pieces kmalloc_passenger enqueue count_on_floor count_in_all locked
    unlocked incr decr
request_run =
    on
      (on
        (on
          (on
            (on
              (on
                (on
                  (on (on still (arrive (requests true human)))
                    (lock [] [] (requests true human) refl refl))
                  (work [] [] (requests true human) _ _ _ refl refl))
                (work [] [] (requests true human) _ _ _ refl refl))
              (work [] [] (requests true human) _ _ _ refl refl))
            (work [] [] (requests true human) _ _ _ refl refl))
          (work [] [] (requests true human) _ _ _ refl refl))
        (finish [] [] (requests true human) tt refl))
      (unlock [] [] refl)

abbrev one_in : Locks
one_in = record {
  globals = record running { mutex = true };
  threads =
      outside (requests false human)
      ∷ inside (requests true human) (request_pieces true human)
      ∷ [];
}

abbrev two_requests : Moves alone one_in
unfolding locked body_of
two_requests =
    on (on (on still (arrive (requests true human))) (arrive (requests false human)))
      (lock (outside (requests false human) ∷ []) [] (requests true human) refl refl)

calm_exclusion_example : length (within one_in.threads) ≤ 1
unfolding two_requests within
calm_exclusion_example = calm_exclusion two_requests ((((tt, tt), tt), tt)) refl refl

calm-Serial_example : Serial running called
unfolding request_run within
calm-Serial_example =
    calm-Serial request_run (((((((((tt, tt), tt), tt), tt), tt), tt), tt), tt), tt) refl refl refl

interrupt_breaks_example :
    (t : Locks) × Moves
      (record {
        globals = record running { mutex = true };
        threads =
            inside stops (ended [])
            ∷ outside (requests true human)
            ∷ outside (requests false human)
            ∷ [];
      })
      t
    × (t.threads
        ≡ inside stops (ended [])
          ∷ inside (requests false human) (body_of (requests false human))
          ∷ [])
interrupt_breaks_example =
    interrupt_breaks (record running { mutex = true }) stops (requests true human)
      (requests false human) (ended []) []

body_of_lem_example : run_body (body_of unloads) riding ≡ atomic_body unloads riding
body_of_lem_example = body_of_lem unloads riding
