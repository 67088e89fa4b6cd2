-- ===== src/Elevator/Boarding/Load.antt =====
-- The loop of `loadPassengers` against its specification.
use native.Mathlib.Nat.{add-zero}
use kernal_elevator.Base.{
  ℕ, ◌+◌, ◌≤◌, ◌≡◌, refl, ap, ◌∙◌, inl, inr, true, false, List, [], ◌∷◌, ◌++◌, append-nil,
  append_assoc, arith, All, Bool-cases, if◌then◌else◌, length, modify, modify_id, modify-modify,
  incr, decr, incr_small, sle_small,
}
use kernal_elevator.Elevator.State.{Passenger, capacity}
use kernal_elevator.Elevator.Queues.{WaitsAt}
use kernal_elevator.Elevator.Boarding.{Boarding, board, leave, load_one, load_each}
use kernal_elevator.Elevator.Boarding.Spec.{
  admits, infect, boarders, stayers, infect_all, repeat, flag, flag_one, suc-add-eq,
  boarders_of_admits, stayers_of_admits,
}

load_one_lem :
    (floor : ℕ) (p : Passenger) (b : Boarding)
    → WaitsAt floor p
    → b.loads ≤ capacity
    → load_one floor p b ≡ (
        if admits b.loads b.status p
        then board p (record b { status = infect b.status p })
        else leave p b)
unfolding load_one
load_one_lem floor p b w h = ground (arith, incr_small b.loads, sle_small (incr b.loads) capacity)

-- The boarding that the specification asks for, from the state `b` of the loop.
unfoldable pub loaded_as : ℕ → List Passenger → Boarding → Boarding
loaded_as floor ps b =
    let bs = boarders b.loads b.status ps in
    record {
      stay = b.stay ++ stayers b.loads b.status ps;
      onboard = b.onboard ++ bs;
      status = infect_all b.status bs;
      loads = b.loads + length bs;
      waiting_on_floor = modify b.waiting_on_floor (decr floor) (repeat decr (length bs));
      num_waiting = repeat decr (length bs) b.num_waiting;
      loaded = flag bs b.loaded;
    }

module _ (floor : ℕ) (p : Passenger) (ps : List Passenger) (b : Boarding) where
  loaded_as-board :
      WaitsAt floor p
      → b.loads ≤ capacity
      → admits b.loads b.status p ≡ true
      → loaded_as floor ps (board p (record b { status = infect b.status p }))
        ≡ loaded_as floor (p ∷ ps) b
  unfolding loaded_as board infect_all repeat flag
  loaded_as-board w h e =
      let bs = boarders (b.loads + 1) (infect b.status p) ps in
      rw
        (
          boarders_of_admits b.loads b.status p ps e,
          stayers_of_admits b.loads b.status p ps e,
          incr_small b.loads (omega arith),
          append_assoc b.onboard (p ∷ []) bs,
          suc-add-eq b.loads (length bs),
          modify-modify b.waiting_on_floor decr (repeat decr (length bs))
              (λ n. repeat decr (length bs) (decr n)) (ap decr w.start) (λ n. refl),
          flag_one bs,
        )
        refl

  loaded_as-leave :
      admits b.loads b.status p ≡ false
      → loaded_as floor ps (leave p b) ≡ loaded_as floor (p ∷ ps) b
  unfolding loaded_as leave boarders stayers infect_all repeat flag
  loaded_as-leave e =
      rw (e, boarders, stayers) (cc (append_assoc b.stay (p ∷ []) (stayers b.loads b.status ps)))

-- The loop does what the specification says.
pub load_each_lem :
    (floor : ℕ) (ps : List Passenger) (b : Boarding)
    → All (WaitsAt floor) ps
    → b.loads ≤ capacity
    → load_each floor ps b ≡ loaded_as floor ps b
unfolding load_each board leave loaded_as boarders stayers infect_all repeat flag
load_each_lem floor [] b w h = cc (
  append-nil b.stay,
  append-nil b.onboard,
  add-zero b.loads,
  modify_id b.waiting_on_floor (decr floor) (repeat decr 0) (λ n. refl),
)
load_each_lem floor (p ∷ ps) b (w, ws) h = elim (Bool-cases (admits b.loads b.status p)) [
  | inl e ↦
      rw (load_one_lem floor p b w h, e)
        (load_each_lem floor ps _ ws (ground (arith, incr_small b.loads))
          ∙ loaded_as-board floor p ps b w h e)
  | inr e ↦
      rw (load_one_lem floor p b w h, e)
        (load_each_lem floor ps _ ws h ∙ loaded_as-leave floor p ps b e)
]
