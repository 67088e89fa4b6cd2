-- ===== src/System/Locks/Sections/Unload.antt =====
-- The section of `unloadPassengers`, statement by statement.
use kernal_elevator.Base.{
  ℕ, ◌≡◌, refl, sym, ap, ◌∙◌, inl, inr, true, false, Option, some, List, [], ◌∷◌, ◌++◌, append-nil,
  append_assoc, Bool-cases, ◌==◌, incr, decr,
}
use kernal_elevator.Elevator.State.{Passenger, Globals}
use kernal_elevator.Elevator.Boarding.{Unloading, unload_one, unload_each, unload_loop, unload_body}
use kernal_elevator.System.Locks.Bodies.{Body, ended, run_body}
use kernal_elevator.System.Locks.Sections.Defs.{assign, look}
use kernal_elevator.System.Locks.Sections.Remove.{set_onboard}

abbrev lighten : Globals → Globals
lighten g = record g { elevator = record g.elevator { loads = decr g.loads } }

abbrev count_served : Globals → Globals
count_served g = record g { serviced = incr g.serviced }

-- The loop, with those who stay and the rest of the list of the car.
unfoldable pub unload_pieces :
    List Passenger → List Passenger → List Passenger → ℕ → Body (ℕ × List Passenger)
unload_pieces [] stay delete_list unloaded = ended (unloaded, delete_list)
unload_pieces (p ∷ ps) stay delete_list unloaded = look (λ g.
    elim (p.destination_floor == g.current_floor) [
      | true ↦
          assign (set_onboard (stay ++ ps)) (λ h. refl)
            (assign lighten (λ h. refl)
              (assign count_served (λ h. refl) (unload_pieces ps stay (delete_list ++ p ∷ []) 1)))
      | false ↦ unload_pieces ps (stay ++ p ∷ []) delete_list unloaded
    ])

unfoldable pub unload_section_pieces : Body (ℕ × List Passenger)
unfolding unload_pieces
unload_section_pieces = look (λ g. unload_pieces g.onboard [] [] 0)

-- The variables in the middle of the loop.
abbrev midway : List Passenger → Unloading → Globals → Globals
midway ps u g = record g {
  elevator = record g.elevator { onboard = u.stay ++ ps; loads = u.loads };
  serviced = u.serviced;
}

module _ (p : Passenger) (ps stay delete_list : List Passenger) (n : ℕ) (g : Globals) where
  leave_step :
      (p.destination_floor == g.current_floor) ≡ true
      → run_body (unload_pieces (p ∷ ps) stay delete_list n) g
        ≡ run_body
            (unload_pieces ps stay (delete_list ++ p ∷ []) 1)
            (count_served (lighten (set_onboard (stay ++ ps) g)))
  unfolding run_body unload_pieces
  leave_step e = rw (e, run_body) refl

  stay_step :
      (p.destination_floor == g.current_floor) ≡ false
      → run_body (unload_pieces (p ∷ ps) stay delete_list n) g
        ≡ run_body (unload_pieces ps (stay ++ p ∷ []) delete_list n) g
  unfolding run_body unload_pieces
  stay_step e = rw (e, run_body) refl

unload_one-leaves :
    (floor : ℕ) (p : Passenger) (u : Unloading)
    → (p.destination_floor == floor) ≡ true
    → unload_one floor p u ≡ record u {
      delete_list = u.delete_list ++ p ∷ [];
      loads = decr u.loads;
      serviced = incr u.serviced;
      unloaded = 1;
    }
unfolding unload_one
unload_one-leaves floor p u e = rw e refl

unload_one-stays :
    (floor : ℕ) (p : Passenger) (u : Unloading)
    → (p.destination_floor == floor) ≡ false
    → unload_one floor p u ≡ record u { stay = u.stay ++ p ∷ [] }
unfolding unload_one
unload_one-stays floor p u e = rw e refl

-- The loop ends with these variables.
abbrev outcome : Unloading → Globals → Option ((ℕ × List Passenger) × Globals)
outcome u g = some ((u.unloaded, u.delete_list), midway [] u g)

unload_pieces_lem :
    (ps : List Passenger) (u : Unloading) (g : Globals)
    → run_body (unload_pieces ps u.stay u.delete_list u.unloaded) (midway ps u g)
      ≡ outcome (unload_each g.current_floor ps u) g
unfolding run_body unload_pieces unload_each
unload_pieces_lem [] u g = refl
unload_pieces_lem (p ∷ ps) u g = elim (Bool-cases (p.destination_floor == g.current_floor)) [
  | inl e ↦
      leave_step p ps u.stay u.delete_list u.unloaded (midway (p ∷ ps) u g) e
      ∙ unload_pieces_lem ps
          (record u {
            delete_list = u.delete_list ++ p ∷ [];
            loads = decr u.loads;
            serviced = incr u.serviced;
            unloaded = 1;
          })
          g
      ∙ ap (λ w. outcome (unload_each g.current_floor ps w) g)
          (sym (unload_one-leaves g.current_floor p u e))
  | inr e ↦
      stay_step p ps u.stay u.delete_list u.unloaded (midway (p ∷ ps) u g) e
      ∙ ap
          (λ qs.
            run_body (unload_pieces ps (u.stay ++ p ∷ []) u.delete_list u.unloaded)
              (set_onboard qs (midway (p ∷ ps) u g)))
          (sym (append_assoc u.stay (p ∷ []) ps))
      ∙ unload_pieces_lem ps (record u { stay = u.stay ++ p ∷ [] }) g
      ∙ ap (λ w. outcome (unload_each g.current_floor ps w) g)
          (sym (unload_one-stays g.current_floor p u e))
]

-- Whole, it is the body of the model.
pub unload_section_pieces_lem : (g : Globals) → run_body unload_section_pieces g ≡ unload_body g
unfolding run_body unload_section_pieces unload_body unload_loop
unload_section_pieces_lem g =
    let u : Unloading = record {
      stay = [];
      delete_list = [];
      loads = g.loads;
      serviced = g.serviced;
      unloaded = 0;
    } in
    unload_pieces_lem g.onboard u g
    ∙ ap
        (λ qs. some (
          (
            (unload_each g.current_floor g.onboard u).unloaded,
            (unload_each g.current_floor g.onboard u).delete_list,
          ),
          set_onboard qs (midway [] (unload_each g.current_floor g.onboard u) g),
        ))
        (append-nil (unload_each g.current_floor g.onboard u).stay)
