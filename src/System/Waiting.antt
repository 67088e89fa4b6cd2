-- ===== src/System/Waiting.antt =====
-- part3/elevator.c: a queue that waits, over the pieces of the threads.
use kernal_elevator.Base.{
  ℕ, zero, suc, ◌<◌, ◌≡◌, ◌≢◌, refl, sym, ap, subst, ◌∙◌, inl, inr, Bool, true, false, some,
  some_unique, List, [], ◌∷◌, ◌++◌, append_assoc, length, get_elem?, get_elem?-set_ne,
  get_elem?-set_self, set, arith,
}
use native.Mathlib.Decide.{ℕ_discrete}
use kernal_elevator.Elevator.State.{Passenger, Globals}
use kernal_elevator.Elevator.Calls.{stop_section}
use kernal_elevator.Elevator.Boarding.{unload_passengers, load_passengers}
use kernal_elevator.Elevator.Scheduler.{load_if_room}
use kernal_elevator.Elevator.Keeps.{
  holdings, unlocked_unload-holdings, unlocked_stop-holdings, unlocked_load-holdings,
}
use kernal_elevator.Elevator.Invariant.Defs.{Inv}
use kernal_elevator.Elevator.Invariant.Boarding.{unload_passengers_lem}
use kernal_elevator.Elevator.Invariant.Loading.{staying, queue_here, load_passengers_lem}
use kernal_elevator.Elevator.Invariant.Motion.{Position}
use kernal_elevator.Elevator.Contract.Loading.{unloaded_at-fields}
use kernal_elevator.Elevator.Contract.Stops.{stop_section_lem}
use kernal_elevator.Elevator.Contract.Queueing.{Joins}
use kernal_elevator.System.Pieces.{load_if_room-cases}
use kernal_elevator.System.Way.{unload-position}

pub lt_of_get :
    (qs : List (List Passenger)) (i : ℕ) {q : List Passenger}
    → get_elem? qs i ≡ some q
    → i < length qs
lt_of_get [] i e = cc
lt_of_get (x ∷ qs) zero e = omega arith
lt_of_get (x ∷ qs) (suc i) e = omega (arith, lt_of_get qs i e)

module _ (i : ℕ) (queue : List Passenger) where
  -- The queue still waits, and others may have come behind it.
  pub record Waiting (g : Globals) : Type 0 where
    pub behind : List Passenger
    pub here : get_elem? g.waiting_list i ≡ some (queue ++ behind)

  abbrev pub IsElsewhere : Globals → Type 0
  IsElsewhere g = g.current_floor ≢ suc i

  pub Waiting-in : (g h : Globals) → h.waiting_list ≡ g.waiting_list → Waiting g → Waiting h
  Waiting-in g h e w = record { behind = w.behind; here = ap (λ qs. get_elem? qs i) e ∙ w.here }

  pub Waiting-still : (g h : Globals) → holdings h ≡ holdings g → Waiting g → Waiting h
  Waiting-still g h e w = Waiting-in g h (ap (λ x. x.2) e) w

  pub Waiting-past :
      (locked : Bool) (g h : Globals) (n : ℕ)
      → Inv g
      → Waiting g
      → unload_passengers locked g ≡ some (n, h)
      → Waiting h
  Waiting-past true g h n v w e =
      let (_, _, queues, _, _) = unloaded_at-fields g in
      subst (λ o. Waiting o.1) (some_unique (unload_passengers_lem g v) e) (Waiting-in g _ queues w)
  Waiting-past false g h n v w e = Waiting-still g h (unlocked_unload-holdings g h n e) w

  pub same_floor :
      (locked : Bool) (g h : Globals) (n : ℕ)
      → unload_passengers locked g ≡ some (n, h)
      → h.current_floor ≡ g.current_floor
  same_floor locked g h n e = ap (λ (p : Position). p.current) (unload-position g h n locked e)

  Waiting-loading :
      (locked : Bool) (g h : Globals) (n : ℕ)
      → Inv g
      → Waiting g
      → IsElsewhere g
      → load_passengers locked g ≡ some (n, h)
      → Waiting h
  Waiting-loading true g h n v w ne e =
      let (j, others, at, q) = queue_here g v in
      subst (λ o. Waiting o.1) (some_unique (load_passengers_lem g j others v at q) e)
        (record {
          behind = w.behind;
          here =
              get_elem?-set_ne g.waiting_list j i (staying g j others) (λ d. ne (at ∙ ap suc d))
              ∙ w.here;
        })
  Waiting-loading false g h n v w ne e = Waiting-still g h (unlocked_load-holdings g h n e) w

  pub Waiting-boarding :
      (locked : Bool) (g h : Globals) (n : ℕ)
      → Inv g
      → Waiting g
      → IsElsewhere g
      → load_if_room locked g ≡ some (n, h)
      → Waiting h
  Waiting-boarding locked g h n v w ne e = elim (load_if_room-cases locked g) [
    | inl f ↦ Waiting-loading locked g h n v w ne (sym f ∙ e)
    | inr f ↦ subst (λ o. Waiting o.1) (some_unique f e) w
  ]

  -- Who comes stands behind the queue, or in another one.
  pub Waiting-joined : (p : Passenger) (g h : Globals) → Inv g → Joins p g h → Waiting g → Waiting h
  Waiting-joined p g h v j w =
      let lists : h.waiting_list ≡ set g.waiting_list j.i (j.queue ++ p ∷ []) =
        ap (λ (k : Globals). k.waiting_list) j.after in
      elim (ℕ_discrete j.i i) [
        | yes e ↦ record {
          behind = w.behind ++ p ∷ [];
          here =
              ap (λ qs. get_elem? qs i) lists
              ∙ ap (λ n. get_elem? (set g.waiting_list n (j.queue ++ p ∷ [])) i) e
              ∙ get_elem?-set_self g.waiting_list i (j.queue ++ p ∷ [])
                  (omega (arith, lt_of_get g.waiting_list i w.here))
              ∙ ap (λ ps. some (ps ++ p ∷ []))
                  (some_unique (sym (ap (λ n. get_elem? g.waiting_list n) e) ∙ j.here) w.here)
              ∙ ap some (append_assoc queue w.behind (p ∷ []));
        }
        | no ne ↦ record {
          behind = w.behind;
          here =
              ap (λ qs. get_elem? qs i) lists
              ∙ get_elem?-set_ne g.waiting_list j.i i (j.queue ++ p ∷ []) ne
              ∙ w.here;
        }
      ]

  pub Waiting-stopped :
      (locked : Bool) (g h : Globals) → stop_section locked g ≡ some (tt, h) → Waiting g → Waiting h
  Waiting-stopped true g h e w =
      subst (λ o. Waiting o.1) (some_unique (stop_section_lem g) e) (Waiting-in g _ refl w)
  Waiting-stopped false g h e w = Waiting-still g h (unlocked_stop-holdings g h e) w
