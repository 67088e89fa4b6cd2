-- ===== src/System/Answered.antt =====
-- part3/elevator.c: from the section of `issue_request` to the car at the floor.
use kernal_elevator.Base.{
  ◌-◌, ◌≤◌, ◌≡◌, ◌≢◌, ap, subst, ◌∙◌, true, some, List, [], ◌∷◌, ◌++◌, length-append, get_elem?,
  get_elem?-set_self, arith,
}
use kernal_elevator.Elevator.State.{Passenger, Globals}
use kernal_elevator.Elevator.Calls.{request_section}
use kernal_elevator.Elevator.Scheduler.{exited}
use kernal_elevator.Elevator.Contract.Queueing.{joins}
use kernal_elevator.System.Defs.{System, Pending, requesting, requested, Reach, next, Run}
use kernal_elevator.System.Reach.{Reach-Inv, Reach-IsRequest}
use kernal_elevator.System.Liveness.{Sometime, Always, ticks}
use kernal_elevator.System.Waiting.{lt_of_get}
use kernal_elevator.System.Visits.{IsVisited, GoesOn, visits}

-- When a request that waits for the mutex gets it, and memory, in a reachable state in which the
-- elevator is not deactivating and the scheduler has not exited, its passenger is behind the
-- queue of his floor, and in every run from then on in which the scheduler is not told to stop,
-- has fewer than 2 ^ 32 live passengers before each piece and takes at least 108 pieces, the
-- thread is at some time about to load at his floor, where those of that queue wait in their
-- order, he behind them.
pub answers :
    {s t : System} (before after : List Pending) (p : Passenger) {h : Globals}
    → Reach s
    → s.pending ≡ before ++ requesting p ∷ after
    → s.globals.deactiving ≡ 0
    → request_section true true p s.globals ≡ some (tt, h)
    → s.pc ≢ exited
    → (run : Run (record s { globals = h; pending = before ++ after }) t) → Always GoesOn run
    → 108 ≤ ticks run
    → (queue : List Passenger) × (get_elem? s.globals.waiting_list (p.start_floor - 1) ≡ some queue)
      × Sometime (λ u. IsVisited (p.start_floor - 1) (queue ++ p ∷ []) u.pc u.globals) run
answers {s} before after p {h} r q d e awake run o enough =
    let w = Reach-IsRequest r before after p q in
    let j = joins p s.globals h (Reach-Inv r) w d e in
    let i = p.start_floor - 1 in
    let same : j.i ≡ i = omega (arith, j.start) in
    let at : get_elem? h.waiting_list j.i ≡ some (j.queue ++ p ∷ []) =
      ap (λ (k : Globals). get_elem? k.waiting_list j.i) j.after
      ∙ get_elem?-set_self s.globals.waiting_list j.i _
          (lt_of_get s.globals.waiting_list j.i j.here) in
    (
      j.queue,
      subst (λ k. get_elem? s.globals.waiting_list k ≡ some j.queue) same j.here,
      visits run i (j.queue ++ p ∷ []) (next r (requested true true p before after q e)) awake
          (subst (λ k. get_elem? h.waiting_list k ≡ some (j.queue ++ p ∷ [])) same at)
          (omega (arith, length-append {0} j.queue (p ∷ []))) o enough,
    )
