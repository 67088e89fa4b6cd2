-- ===== src/System/Locks/Sections/LoadWhole.antt =====
-- The statements of the section of `loadPassengers` against the body that the model takes in one
-- step.
use kernal_elevator.Base.{
  ℕ, ◌≡◌, refl, sym, ap, ◌∙◌, Option, some, List, [], ◌∷◌, ◌++◌, append-nil, append_assoc, decr,
  get_elem?, set, set-set, set-get, Option-cases, inl, inr, arith,
}
use kernal_elevator.Elevator.State.{Passenger, Globals}
use kernal_elevator.Elevator.Boarding.{
  Boarding, board, leave, load_one, load_each, load_loop, after_loading, load_body,
}
use kernal_elevator.System.Locks.Bodies.{run_body}
use kernal_elevator.System.Locks.Sections.Defs.{with_lists}
use kernal_elevator.System.Locks.Sections.Load.{
  Fate, infects, joins, stays, fate, take_aboard, infect, burden, one_less_on, one_less,
  load_pieces, load_section_pieces,
}

abbrev by_fate : Fate → Passenger → Boarding → Boarding
by_fate infects p b = board p (record b { status = 1 })
by_fate joins p b = board p b
by_fate stays p b = leave p b

load_one-fate :
    (floor : ℕ) (p : Passenger) (b : Boarding)
    → load_one floor p b ≡ by_fate (fate floor p b.loads b.status) p b
unfolding load_one fate
load_one-fate floor p b = ground arith

module _ (i floor : ℕ) (p : Passenger) (ps stay : List Passenger) (n : ℕ) (g : Globals) where
  infects_step :
      fate floor p g.loads g.status ≡ infects
      → run_body (load_pieces i floor (p ∷ ps) stay n) g
        ≡ run_body
            (load_pieces i floor ps stay 1)
            (one_less (one_less_on p (burden (infect (take_aboard i p (stay ++ ps) g)))))
  unfolding run_body load_pieces
  infects_step e = rw (e, run_body) refl

  joins_step :
      fate floor p g.loads g.status ≡ joins
      → run_body (load_pieces i floor (p ∷ ps) stay n) g
        ≡ run_body
            (load_pieces i floor ps stay 1)
            (one_less (one_less_on p (burden (take_aboard i p (stay ++ ps) g))))
  unfolding run_body load_pieces
  joins_step e = rw (e, run_body) refl

  stays_step :
      fate floor p g.loads g.status ≡ stays
      → run_body (load_pieces i floor (p ∷ ps) stay n) g
        ≡ run_body (load_pieces i floor ps (stay ++ p ∷ []) n) g
  unfolding run_body load_pieces
  stays_step e = rw (e, run_body) refl

-- The variables in the middle of the loop.
abbrev midway : ℕ → List Passenger → Boarding → Globals → Globals
midway i ps b g = record g {
  elevator = record g.elevator { onboard = b.onboard; status = b.status; loads = b.loads };
  waiting_list = set g.waiting_list i (b.stay ++ ps);
  waiting_on_floor = b.waiting_on_floor;
  num_waiting = b.num_waiting;
}

abbrev outcome : ℕ → Boarding → Globals → Option (ℕ × Globals)
outcome i b g = some (b.loaded, midway i [] b g)

module _ (i floor : ℕ) (g : Globals) where
  -- What one passenger does to the loop, and to what the rest of it makes of the variables.
  fate_step :
      (p : Passenger) (ps : List Passenger) (b : Boarding) (f : Fate)
      → fate floor p b.loads b.status ≡ f
      → let c = by_fate f p b in
        run_body (load_pieces i floor (p ∷ ps) b.stay b.loaded) (midway i (p ∷ ps) b g)
        ≡ run_body (load_pieces i floor ps c.stay c.loaded) (midway i ps c g)
  unfolding board leave
  fate_step p ps b infects e =
      infects_step i floor p ps b.stay b.loaded (midway i (p ∷ ps) b g) e
      ∙ ap
          (λ qs.
            run_body (load_pieces i floor ps b.stay 1)
              (with_lists qs (midway i ps (by_fate infects p b) g)))
          (set-set g.waiting_list i (b.stay ++ p ∷ ps) (b.stay ++ ps))
  fate_step p ps b joins e =
      joins_step i floor p ps b.stay b.loaded (midway i (p ∷ ps) b g) e
      ∙ ap
          (λ qs.
            run_body (load_pieces i floor ps b.stay 1)
              (with_lists qs (midway i ps (by_fate joins p b) g)))
          (set-set g.waiting_list i (b.stay ++ p ∷ ps) (b.stay ++ ps))
  fate_step p ps b stays e =
      stays_step i floor p ps b.stay b.loaded (midway i (p ∷ ps) b g) e
      ∙ ap
          (λ q.
            run_body (load_pieces i floor ps (b.stay ++ p ∷ []) b.loaded)
              (with_lists (set g.waiting_list i q) (midway i (p ∷ ps) b g)))
          (sym (append_assoc b.stay (p ∷ []) ps))

  load_pieces_lem :
      (ps : List Passenger) (b : Boarding)
      → run_body (load_pieces i floor ps b.stay b.loaded) (midway i ps b g)
        ≡ outcome i (load_each floor ps b) g
  unfolding run_body load_pieces load_each
  load_pieces_lem [] b = refl
  load_pieces_lem (p ∷ ps) b =
      fate_step p ps b (fate floor p b.loads b.status) refl
      ∙ load_pieces_lem ps (by_fate (fate floor p b.loads b.status) p b)
      ∙ ap (λ c. outcome i (load_each floor ps c) g) (sym (load_one-fate floor p b))

module _ (g : Globals) {queue : List Passenger}
    (e : get_elem? g.waiting_list (decr g.current_floor) ≡ some queue) where
  abbrev at : ℕ
  at = decr g.current_floor

  abbrev first : Boarding
  first = record {
    stay = [];
    onboard = g.onboard;
    status = g.status;
    loads = g.loads;
    waiting_on_floor = g.waiting_on_floor;
    num_waiting = g.num_waiting;
    loaded = 0;
  }

  abbrev last : Boarding
  last = load_each g.current_floor queue first

  section_starts :
      run_body load_section_pieces g ≡ run_body (load_pieces at g.current_floor queue [] 0) g
  unfolding load_section_pieces run_body
  section_starts = rw (e, run_body) refl

  body_is : load_body g ≡ some (last.loaded, after_loading at last g)
  unfolding load_body load_loop
  body_is = rw e refl

  section_is : run_body load_section_pieces g ≡ load_body g
  unfolding after_loading
  section_is =
      section_starts
      ∙ ap (λ qs. run_body (load_pieces at g.current_floor queue [] 0) (with_lists qs g))
          (sym (set-get g.waiting_list at e))
      ∙ load_pieces_lem at g.current_floor g queue first
      ∙ ap (λ q. some (last.loaded, with_lists (set g.waiting_list at q) (midway at [] last g)))
          (append-nil last.stay)
      ∙ sym body_is

-- Whole, it is the body of the model.
pub load_section_pieces_lem : (g : Globals) → run_body load_section_pieces g ≡ load_body g
unfolding load_section_pieces load_body run_body
load_section_pieces_lem g = elim (Option-cases (get_elem? g.waiting_list (decr g.current_floor))) [
  | inl e ↦ rw (e, run_body) refl
  | inr (queue, e) ↦ section_is g e
]
