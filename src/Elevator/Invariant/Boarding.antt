-- ===== src/Elevator/Invariant/Boarding.antt =====
-- part3/elevator.c: `unloadPassengers` and `loadPassengers` against the invariant.
use kernal_elevator.Base.{
  ℕ, zero, suc, ◌+◌, ◌-◌, ◌^◌, ◌≤◌, ◌<◌, ◌≡◌, refl, inl, inr, Bool, true, false, some, List, [],
  ◌∷◌, arith, All, All-right, length, length-Merge, Bool-cases, ◌==◌, incr, decr, decr_small, Merge,
}
use kernal_elevator.Elevator.State.{Passenger, Globals, with_mutex, with_mutex-some, free_list}
use kernal_elevator.Elevator.Queues.{IsQueued, total}
use kernal_elevator.Elevator.Boarding.{unload_loop, unload_body, disinfect, unload_passengers}
use kernal_elevator.Elevator.Boarding.Spec.{arrivals, riders, repeat, flag}
use kernal_elevator.Elevator.Boarding.Unload.{
  unloaded_as, unload_each_lem, arrivals-riders-Merge, free_all_lem,
}
use kernal_elevator.Elevator.Invariant.Defs.{IsOnTrack, IsCabin, Inv, Inv-outside}

repeat-decr_small : (k n : ℕ) → k ≤ n → n < 2 ^ 32 → repeat decr k n ≡ n - k
unfolding repeat
repeat-decr_small zero n h l = omega arith
repeat-decr_small (suc k) n h l =
    rw (decr_small n (omega arith) l, repeat-decr_small k (n - 1) (omega arith) (omega arith))
      (omega arith)

length-arrivals-le : (floor : ℕ) (ps : List Passenger) → length (arrivals floor ps) ≤ length ps
length-arrivals-le floor ps = omega (arith, length-Merge {0} (arrivals-riders-Merge floor ps))

module _ (g : Globals) where
  abbrev pub gone : List Passenger
  gone = arrivals g.current_floor g.onboard

  unload_loop_lem : unload_loop g ≡ record {
    stay = riders g.current_floor g.onboard;
    delete_list = gone;
    loads = repeat decr (length gone) g.loads;
    serviced = repeat incr (length gone) g.serviced;
    unloaded = flag gone 0;
  }
  unfolding unload_loop unloaded_as
  unload_loop_lem = unload_each_lem g.current_floor g.onboard _

  -- The state that the loop leaves, in plain arithmetic.
  abbrev pub unloaded_under_lock : Globals
  unloaded_under_lock = record g {
    elevator = record g.elevator {
      onboard = riders g.current_floor g.onboard;
      loads = g.loads - length gone;
    };
    serviced = repeat incr (length gone) g.serviced;
  }

  loads-gone : Inv g → repeat decr (length gone) g.loads ≡ g.loads - length gone
  loads-gone v =
      repeat-decr_small (length gone) g.loads
        (omega (arith, length-arrivals-le g.current_floor g.onboard)) (omega arith)

  unload_body_lem : Inv g → unload_body g ≡ some ((flag gone 0, gone), unloaded_under_lock)
  unfolding unload_body
  unload_body_lem v = ground (arith, unload_loop_lem, loads-gone v)

-- The state that the stop at a floor leaves after unloading.
unfoldable pub unloaded_at : Globals → Globals
unfolding disinfect
unloaded_at g =
    disinfect (record (unloaded_under_lock g) { mutex = false; live = g.live - length (gone g) })

under_lock-Inv : (b : Bool) (g : Globals) → Inv g → Inv (record g { mutex = b })
under_lock-Inv b g v = Inv-outside v

-- With the lock, `unloadPassengers` does not fault, and tells whether anybody left.
pub unload_passengers_lem :
    (g : Globals) → Inv g → unload_passengers true g ≡ some (flag (gone g) 0, unloaded_at g)
unfolding unload_passengers free_list unloaded_at
unload_passengers_lem g v = rw (
  with_mutex-some (0, []) unload_body g
      (unload_body_lem (record g { mutex = true }) (under_lock-Inv true g v)),
  free_all_lem (gone g) g.live,
)

All-empty {ℓ κ} : {A : Type ℓ} (P : A → Type κ) (xs : List A) → length xs ≤ 0 → All P xs
All-empty P [] h = tt
All-empty P (x ∷ xs) h = absurd (omega arith)

disinfect-Inv :
    (g : Globals)
    → IsOnTrack g.current_floor g.next_floor
    → IsCabin g.onboard g.loads g.status
    → IsQueued g.waiting_list g.waiting_on_floor g.num_waiting
    → g.live ≡ length g.onboard + total g.waiting_list
    → Inv (disinfect g)
unfolding disinfect
disinfect-Inv g t c q b = elim (Bool-cases (g.loads == 0)) [
  | inl e ↦
      rw (e, disinfect)
        (record {
          track = t;
          cabin = record {
            loads_le = c.loads_le;
            aboard = c.aboard;
            status_le = omega arith;
            clean = λ _. All-empty _ g.onboard (ground arith);
            riders = c.riders;
          };
          empty_clean = λ _. refl;
          queued = q;
          blocks = b;
        })
  | inr e ↦
      rw (e, disinfect)
        (record { track = t; cabin = c; empty_clean = λ z. ground arith; queued = q; blocks = b })
]

pub unloaded_at-Inv : (g : Globals) → Inv g → Inv (unloaded_at g)
unfolding unloaded_at
unloaded_at-Inv g v =
    disinfect-Inv _ v.track
      (record {
        loads_le = omega arith;
        aboard = omega (arith, length-Merge {0} m);
        status_le = v.cabin.status_le;
        clean = λ e. All-right _ m (v.cabin.clean e);
        riders = All-right _ m v.cabin.riders;
      })
      v.queued (omega (arith, length-Merge {0} m))
  where
    m : Merge (gone g) (riders g.current_floor g.onboard) g.onboard
    m = arrivals-riders-Merge g.current_floor g.onboard

-- `unloadPassengers` never faults, and keeps the invariant, with the lock and without it.
pub unload_passengers-Inv :
    (locked : Bool) (g : Globals)
    → Inv g
    → (n : ℕ) × (h : Globals) × (unload_passengers locked g ≡ some (n, h)) × Inv h
unfolding unload_passengers with_mutex free_list
unload_passengers-Inv true g v = (_, _, unload_passengers_lem g v, unloaded_at-Inv g v)
unload_passengers-Inv false g v = (_, _, refl, disinfect-Inv _ v.track v.cabin v.queued v.blocks)
