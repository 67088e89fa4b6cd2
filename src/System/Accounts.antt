-- ===== src/System/Accounts.antt =====
-- part3/elevator.c: who is in the building, who comes and who goes, over whole runs of the threads.
use mathlib.Mathlib.Data.Multiset.Defs.{Multiset, of_list}
use mathlib.Mathlib.Data.Multiset.AddSub.{add, add_comm, add_assoc, zero-add}
use kernal_elevator.Base.{
  ◌+◌, ◌%◌, ◌^◌, ◌≡◌, refl, sym, ap, subst, ◌∙◌, inl, inr, Bool, true, false, some, some_unique, [],
  ◌∷◌, ◌++◌, arith, length, length-append, set, Bool-cases, ◌==◌,
}
use kernal_elevator.Elevator.State.{Passenger, Globals}
use kernal_elevator.Elevator.Calls.{start_elevator, request_section, stop_section}
use kernal_elevator.Elevator.Invariant.Defs.{Inv}
use kernal_elevator.Elevator.Invariant.Calls.{IsRequest}
use kernal_elevator.Elevator.Contract.Queueing.{Joins, joins, request-unmoved, no_room}
use kernal_elevator.Elevator.Contract.Stops.{stop_section_lem}
use kernal_elevator.System.Defs.{
  System, Step, schedule, start, request, stop, requested, stopped, Reach, Run, stay, go,
}
use kernal_elevator.System.Reach.{Reach-Inv, Reach-IsRequest, Run-Reach}
use kernal_elevator.Elevator.Keeps.{
  start_elevator-holdings, stop_entry-holdings, unlocked_stop-holdings,
}
use kernal_elevator.System.Shown.{IsShown, Reach-IsShown}
use kernal_elevator.System.Bags.{
  everybody, everybody-more, add_left_comm, balance-comes, balance-put_out,
}
use kernal_elevator.System.Ledger.{
  everyone, newcomer, put_out, step_came, step_arrived, step_put_out, all_came, all_arrived,
  all_put_out,
}
use kernal_elevator.System.Moved.{Moved, still, piece-Moved}

stop-Moved :
    (locked : Bool) (g h : Globals)
    → IsShown g
    → stop_section locked g ≡ some (tt, h)
    → Moved [] [] (put_out locked g) g h
stop-Moved true g h s e =
    subst (λ o. Moved [] [] g.onboard g o.1) (some_unique (stop_section_lem g) e)
      (record {
        balance =
            balance-put_out (of_list g.onboard) (of_list []) (everybody g.waiting_list)
              (everybody g.waiting_list) (of_list []) refl refl
            ∙ sym (zero-add _);
        count = omega (arith, s.serviced_lt);
      })
stop-Moved false g h s e = still g h s (unlocked_stop-holdings g h e)

joined-Moved : (p : Passenger) (g h : Globals) → IsShown g → Joins p g h → Moved (p ∷ []) [] [] g h
joined-Moved p g h s j = subst (Moved (p ∷ []) [] [] g) (sym j.after) (record {
  balance =
      balance-comes (of_list g.onboard) (of_list g.onboard) (everybody g.waiting_list)
        (everybody (set g.waiting_list j.i (j.queue ++ p ∷ []))) (of_list (p ∷ []))
        (everybody-more g.waiting_list j.i (j.queue ++ p ∷ []) (of_list (p ∷ [])) j.here
          (add_comm (of_list j.queue) (of_list (p ∷ []))))
        refl
      ∙ ap (add (of_list [])) (
          sym (
            zero-add
              (add (of_list g.onboard) (everybody (set g.waiting_list j.i (j.queue ++ p ∷ []))))));
  count = omega (arith, s.serviced_lt);
})

request-Moved :
    (locked allocated : Bool) (p : Passenger) (g h : Globals)
    → Inv g
    → IsShown g
    → IsRequest p
    → request_section locked allocated p g ≡ some (tt, h)
    → Moved (newcomer locked p g) [] [] g h
request-Moved false allocated p g h v s r e =
    still g h s (request-unmoved false allocated p g h (inl refl) e)
request-Moved true allocated p g h v s r e = elim (Bool-cases (g.deactiving == 0)) [
  | inr f ↦ rw f (still g h s (request-unmoved true allocated p g h (inr f) e))
  | inl f ↦ rw f (let_in allocated e (ground arith))
]
  where
    let_in :
        (allocated : Bool)
        → request_section true allocated p g ≡ some (tt, h)
        → g.deactiving ≡ 0
        → Moved (p ∷ []) [] [] g h
    let_in true e d = joined-Moved p g h s (joins p g h v r d e)
    let_in false e d = absurd (no_room p g h d e)

Step-Moved :
    {s t : System} (st : Step s t)
    → Reach s
    → Moved (step_came st) (step_arrived st) (step_put_out st) s.globals t.globals
Step-Moved {s} (schedule a {pc} {h} e) r =
    piece-Moved a s.pc pc s.globals h (Reach-Inv r) (Reach-IsShown r) e
Step-Moved {s} start r =
    still s.globals (start_elevator s.globals).1 (Reach-IsShown r)
      (start_elevator-holdings s.globals)
Step-Moved {s} (request _ _ _ _ _) r = still s.globals s.globals (Reach-IsShown r) refl
Step-Moved {s} (stop {h} e) r =
    still s.globals h (Reach-IsShown r) (stop_entry-holdings s.globals h e)
Step-Moved {s} (requested locked allocated p before after {h} x e) r =
    request-Moved locked allocated p s.globals h (Reach-Inv r) (Reach-IsShown r)
      (Reach-IsRequest r before after p x) e
Step-Moved {s} (stopped locked before after {h} x e) r =
    stop-Moved locked s.globals h (Reach-IsShown r) e

chain :
    (come arrive out more arrive' out' begin mid end : Multiset Passenger)
    → add come begin ≡ add arrive (add out mid)
    → add more mid ≡ add arrive' (add out' end)
    → add (add come more) begin ≡ add (add arrive arrive') (add (add out out') end)
chain come arrive out more arrive' out' begin mid end d e =
    add_assoc come more begin
    ∙ add_left_comm come more begin
    ∙ ap (add more) d
    ∙ add_left_comm more arrive (add out mid)
    ∙ ap (add arrive)
        (add_left_comm more out mid ∙ ap (add out) e ∙ add_left_comm out arrive' (add out' end))
    ∙ sym (add_assoc arrive arrive' (add out (add out' end)))
    ∙ ap (add (add arrive arrive')) (sym (add_assoc out out' end))

-- In every run of the threads from a reachable state nobody is lost and nobody made up. As
-- multisets, those aboard and waiting at first, and the passengers whose requests get the lock
-- while the elevator is not deactivating, are those aboard and waiting at the end, those whom
-- the car has brought to the floor they go to when the scheduler unloads with the lock, and
-- those who were aboard when a stop got the lock. `serviced` is counted up, modulo 2 ^ 32, by
-- the number of those brought to their floor.
pub Run-balance :
    {s t : System} (run : Run s t)
    → Reach s
    → (add (of_list (all_came run)) (everyone s.globals)
        ≡ add (of_list (all_arrived run)) (add (of_list (all_put_out run)) (everyone t.globals)))
      × (t.globals.serviced ≡ (s.globals.serviced + length (all_arrived run)) % 2 ^ 32)
Run-balance {s} stay r =
    let m = still s.globals s.globals (Reach-IsShown r) refl in (m.balance, m.count)
Run-balance {s} (go {t} {u} run st) r =
    let (balance, count) = Run-balance run r in
    let m = Step-Moved st (Run-Reach run r) in
    (
      chain (of_list (all_came run)) (of_list (all_arrived run)) (of_list (all_put_out run))
          (of_list (step_came st)) (of_list (step_arrived st)) (of_list (step_put_out st))
          (everyone s.globals) (everyone t.globals) (everyone u.globals) balance m.balance,
      omega (arith, count, m.count, length-append {0} (all_arrived run) (step_arrived st)),
    )
