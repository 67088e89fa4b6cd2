-- ===== src/Elevator/Boarding/Unload.antt =====
-- The loop of `unloadPassengers` against its specification, and the loops over a list to delete.
use kernal_elevator.Base.{
  ℕ, ◌-◌, ◌≡◌, sym, ◌∙◌, inl, inr, true, false, List, [], ◌∷◌, ◌++◌, append-nil, append_assoc,
  arith, Bool-cases, ◌==◌, length, incr, decr, Merge, done, left, right,
}
use kernal_elevator.Elevator.State.{Passenger, move_all, free_all}
use kernal_elevator.Elevator.Boarding.{Unloading, unload_one, unload_each}
use kernal_elevator.Elevator.Boarding.Spec.{arrivals, riders, repeat, flag, flag_one}

-- The unloading that the specification asks for, from the state `u` of the loop.
unfoldable pub unloaded_as : ℕ → List Passenger → Unloading → Unloading
unloaded_as floor ps u =
    let gone = arrivals floor ps in
    record {
      stay = u.stay ++ riders floor ps;
      delete_list = u.delete_list ++ gone;
      loads = repeat decr (length gone) u.loads;
      serviced = repeat incr (length gone) u.serviced;
      unloaded = flag gone u.unloaded;
    }

module _ (floor : ℕ) (p : Passenger) (ps : List Passenger) (u : Unloading) where
  unloaded_as-arrival :
      (p.destination_floor == floor) ≡ true
      → unloaded_as floor ps (unload_one floor p u) ≡ unloaded_as floor (p ∷ ps) u
  unfolding unloaded_as unload_one arrivals riders repeat flag
  unloaded_as-arrival e =
      rw (e, append_assoc u.delete_list (p ∷ []) (arrivals floor ps), flag_one (arrivals floor ps))

  unloaded_as-rider :
      (p.destination_floor == floor) ≡ false
      → unloaded_as floor ps (unload_one floor p u) ≡ unloaded_as floor (p ∷ ps) u
  unfolding unloaded_as unload_one arrivals riders
  unloaded_as-rider e = rw (e, append_assoc u.stay (p ∷ []) (riders floor ps))

-- The loop does what the specification says.
pub unload_each_lem :
    (floor : ℕ) (ps : List Passenger) (u : Unloading)
    → unload_each floor ps u ≡ unloaded_as floor ps u
unfolding unload_each unloaded_as arrivals riders repeat flag
unload_each_lem floor [] u = rw (append-nil u.stay, append-nil u.delete_list)
unload_each_lem floor (p ∷ ps) u =
    unload_each_lem floor ps (unload_one floor p u)
    ∙ elim (Bool-cases (p.destination_floor == floor)) [
      | inl e ↦ unloaded_as-arrival floor p ps u e
      | inr e ↦ unloaded_as-rider floor p ps u e
    ]

-- Nobody is lost, and both keep their order.
pub arrivals-riders-Merge :
    (floor : ℕ) (ps : List Passenger) → Merge (arrivals floor ps) (riders floor ps) ps
unfolding arrivals riders
arrivals-riders-Merge floor [] = done
arrivals-riders-Merge floor (p ∷ ps) = elim (Bool-cases (p.destination_floor == floor)) [
  | inl e ↦ rw e (left (arrivals-riders-Merge floor ps))
  | inr e ↦ rw e (right (arrivals-riders-Merge floor ps))
]

pub free_all_lem : (ps : List Passenger) (n : ℕ) → free_all ps n ≡ n - length ps
unfolding free_all
free_all_lem [] n = omega arith
free_all_lem (p ∷ ps) n = omega (arith, free_all_lem ps (n - 1))

pub move_all_lem : (ps to : List Passenger) → move_all ps to ≡ to ++ ps
unfolding move_all
move_all_lem [] to = sym (append-nil to)
move_all_lem (p ∷ ps) to = move_all_lem ps (to ++ p ∷ []) ∙ append_assoc to (p ∷ []) ps
