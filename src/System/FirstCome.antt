-- ===== src/System/FirstCome.antt =====
-- part3/elevator.c: the queue of a floor over whole runs of the threads, type by type.
use native.Mathlib.Decide.{ℕ_discrete}
use kernal_elevator.Base.{
  ℕ, ◌≡◌, ◌≢◌, refl, sym, ap, subst, ◌∙◌, ◌⊎◌, inl, inr, Bool, true, false, some, some_unique, List,
  [], ◌∷◌, ◌++◌, append-nil, append_assoc, arith, Bool-cases, ◌==◌, length, get_elem?,
  get_elem?-set_ne, get_elem?-set_self, set,
}
use kernal_elevator.Elevator.State.{Passenger, Globals}
use kernal_elevator.Elevator.Calls.{start_elevator, request_section, stop_section}
use kernal_elevator.Elevator.Boarding.Order.{of_type, of_type-append}
use kernal_elevator.Elevator.Invariant.Defs.{Inv}
use kernal_elevator.Elevator.Invariant.Calls.{IsRequest}
use kernal_elevator.Elevator.Contract.Queueing.{Joins, joins, request-unmoved, no_room}
use kernal_elevator.Elevator.Contract.Stops.{stop_section_lem}
use kernal_elevator.Elevator.Keeps.{
  start_elevator-holdings, stop_entry-holdings, unlocked_stop-holdings,
}
use kernal_elevator.System.Defs.{
  System, Step, schedule, start, request, stop, requested, stopped, Reach, Run, stay, go,
}
use kernal_elevator.System.Reach.{Reach-Inv, Reach-IsRequest, Run-Reach}
use kernal_elevator.System.Pieces.{scheduler_step-keeps}
use kernal_elevator.System.Waiting.{lt_of_get}
use kernal_elevator.System.Lines.{
  came_aboard, let_in, comes, all_who_came, all_who_boarded, Passes, Keeps, Passes-behind,
  Keeps-lists, Keeps-holdings, Keeps-IsPiecewise,
}

module _ (i : ℕ) where
  refuses-Passes :
      (locked allocated : Bool) (p : Passenger) (g h : Globals) (queue : List Passenger)
      → (locked ≡ false) ⊎ ((g.deactiving == 0) ≡ false)
      → request_section locked allocated p g ≡ some (tt, h)
      → get_elem? g.waiting_list i ≡ some queue
      → Passes i (let_in i locked p g) g h queue
  refuses-Passes locked allocated p g h queue w e q =
      subst (λ ps. Passes i ps g h queue) nobody
        (Keeps-holdings i g h (request-unmoved locked allocated p g h w e) queue q)
    where
      nobody : [] ≡ let_in i locked p g
      nobody = ground arith

  joins-Passes :
      (p : Passenger) (g h : Globals) (queue : List Passenger)
      → g.deactiving ≡ 0
      → Joins p g h
      → get_elem? g.waiting_list i ≡ some queue
      → Passes i (let_in i true p g) g h queue
  joins-Passes p g h queue d j q =
      let lists : h.waiting_list ≡ set g.waiting_list j.i (j.queue ++ p ∷ []) =
        ap (λ (k : Globals). k.waiting_list) j.after in
      let still = ap (λ (k : Globals). length k.onboard) j.after in
      Passes-behind i (let_in i true p g) g h queue (omega (arith, still)) (
        ap (λ qs. get_elem? qs i) lists ∙ elim (ℕ_discrete j.i i) [
          | yes e ↦
              ap (λ n. get_elem? (set g.waiting_list n (j.queue ++ p ∷ [])) i) e
              ∙ get_elem?-set_self g.waiting_list i (j.queue ++ p ∷ [])
                  (lt_of_get g.waiting_list i q)
              ∙ ap (λ ps. some (ps ++ p ∷ []))
                  (some_unique (sym (ap (λ n. get_elem? g.waiting_list n) e) ∙ j.here) q)
              ∙ ap (λ ps. some (queue ++ ps)) (here e)
          | no ne ↦
              get_elem?-set_ne g.waiting_list j.i i (j.queue ++ p ∷ []) ne
              ∙ q
              ∙ ap some (sym (append-nil queue))
              ∙ ap (λ ps. some (queue ++ ps)) (elsewhere ne)
        ])
    where
      here : j.i ≡ i → p ∷ [] ≡ let_in i true p g
      here e = ground arith

      elsewhere : j.i ≢ i → [] ≡ let_in i true p g
      elsewhere ne = ground arith

  request-Passes :
      (locked allocated : Bool) (p : Passenger) (g h : Globals) (queue : List Passenger)
      → Inv g
      → IsRequest p
      → request_section locked allocated p g ≡ some (tt, h)
      → get_elem? g.waiting_list i ≡ some queue
      → Passes i (let_in i locked p g) g h queue
  request-Passes false allocated p g h queue v r e q =
      refuses-Passes false allocated p g h queue (inl refl) e q
  request-Passes true allocated p g h queue v r e q = elim (Bool-cases (g.deactiving == 0)) [
    | inr f ↦ refuses-Passes true allocated p g h queue (inr f) e q
    | inl f ↦ open_to allocated e (ground arith)
  ]
    where
      open_to :
          (allocated : Bool)
          → request_section true allocated p g ≡ some (tt, h)
          → g.deactiving ≡ 0
          → Passes i (let_in i true p g) g h queue
      open_to true e d = joins-Passes p g h queue d (joins p g h v r d e) q
      open_to false e d = absurd (no_room p g h d e)

  stop-Keeps : (locked : Bool) (g h : Globals) → stop_section locked g ≡ some (tt, h) → Keeps i g h
  stop-Keeps true g h e =
      subst (λ o. Keeps i g o.1) (some_unique (stop_section_lem g) e)
        (Keeps-lists i g _ refl (omega arith))
  stop-Keeps false g h e = Keeps-holdings i g h (unlocked_stop-holdings g h e)

  Step-Passes :
      {s t : System} (st : Step s t) (queue : List Passenger)
      → Reach s
      → get_elem? s.globals.waiting_list i ≡ some queue
      → Passes i (comes i st) s.globals t.globals queue
  Step-Passes {s} (schedule a {pc} {h} e) queue r q =
      scheduler_step-keeps (Keeps i) (Keeps-IsPiecewise i) a s.pc pc s.globals h (Reach-Inv r) e
        queue q
  Step-Passes {s} start queue r q =
      Keeps-holdings i s.globals (start_elevator s.globals).1 (start_elevator-holdings s.globals)
        queue q
  Step-Passes {s} (request _ _ _ _ _) queue r q = Keeps-holdings i s.globals s.globals refl queue q
  Step-Passes {s} (stop {h} e) queue r q =
      Keeps-holdings i s.globals h (stop_entry-holdings s.globals h e) queue q
  Step-Passes {s} (requested locked allocated p before after {h} x e) queue r q =
      request-Passes locked allocated p s.globals h queue (Reach-Inv r)
        (Reach-IsRequest r before after p x) e q
  Step-Passes {s} (stopped locked before after {h} x e) queue r q =
      stop-Keeps locked s.globals h e queue q

of_type-chain :
    (k : ℕ) (queue come more board mid boards after : List Passenger)
    → of_type k (queue ++ come) ≡ of_type k board ++ of_type k mid
    → of_type k (mid ++ more) ≡ of_type k boards ++ of_type k after
    → of_type k (queue ++ (come ++ more)) ≡ of_type k (board ++ boards) ++ of_type k after
of_type-chain k queue come more board mid boards after d e =
    ap (of_type k) (sym (append_assoc queue come more))
    ∙ of_type-append k (queue ++ come) more
    ∙ ap (λ ps. ps ++ of_type k more) d
    ∙ append_assoc (of_type k board) (of_type k mid) (of_type k more)
    ∙ ap (λ ps. of_type k board ++ ps) (sym (of_type-append k mid more) ∙ e)
    ∙ sym (append_assoc (of_type k board) (of_type k boards) (of_type k after))
    ∙ ap (λ ps. ps ++ of_type k after) (sym (of_type-append k board boards))

-- In every run of the threads from a reachable state, the passengers of one type board at a
-- floor in the order of the queue. For each waiting list and each type: those of the type who
-- wait there at first, followed by those whom the sections of requests let in there, under the
-- lock and while the elevator is not deactivating, are those whom the car takes aboard while it
-- stands at that floor, followed by those who wait there at the end, all in their order.
pub first_come :
    {s t : System} (run : Run s t) (i : ℕ) (queue : List Passenger)
    → Reach s
    → get_elem? s.globals.waiting_list i ≡ some queue
    → (after : List Passenger) × (get_elem? t.globals.waiting_list i ≡ some after)
      × ((k : ℕ)
          → of_type k (queue ++ all_who_came i run)
            ≡ of_type k (all_who_boarded i run) ++ of_type k after)
first_come stay i queue r q = (queue, q, λ k. rw (append-nil queue) refl)
first_come (go {t} {u} run st) i queue r q =
    let (mid, m, before) = first_come run i queue r q in
    let x = Step-Passes i st mid (Run-Reach run r) m in
    (
      x.after,
      x.there,
      λ k.
          of_type-chain k queue (all_who_came i run) (comes i st) (all_who_boarded i run) mid
            (came_aboard i t.globals u.globals) x.after (before k) (x.order k),
    )
