-- ===== src/Elevator/Joining.antt =====
-- part3/elevator.c: what the section of `issue_request` does with a passenger whom it lets in.
use kernal_elevator.Base.{
  ℕ, suc, ◌+◌, ◌<◌, ◌≡◌, true, false, some, List, [], ◌∷◌, ◌++◌, arith, get_elem?, set, incr, decr,
  decr_small,
}
use kernal_elevator.Elevator.State.{Passenger, Globals, floors, with_mutex-some}
use kernal_elevator.Elevator.Calls.{add_waiting, request_body, request_section}

-- The state with a passenger more at the end of the list of index `i`, whose counter was `count`.
abbrev pub joined : ℕ → List Passenger → ℕ → Passenger → Globals → Globals
joined i queue count p g = record g {
  waiting_list = set g.waiting_list i (queue ++ p ∷ []);
  waiting_on_floor = set g.waiting_on_floor i (incr count);
  num_waiting = incr g.num_waiting;
}

module _ (p : Passenger) (g : Globals) (i : ℕ) (queue : List Passenger) (count : ℕ)
    (s : p.start_floor ≡ suc i) (h : i < floors) (q : get_elem? g.waiting_list i ≡ some queue)
    (c : get_elem? g.waiting_on_floor i ≡ some count) where
  add_waiting-joins : add_waiting p g ≡ some (joined i queue count p g)
  unfolding add_waiting
  add_waiting-joins = rw (di, q, c)
    where
      di : decr p.start_floor ≡ i
      di = omega (arith, decr_small p.start_floor)

request_body-joins :
    (p : Passenger) (g : Globals) (i : ℕ) (queue : List Passenger) (count : ℕ)
    → g.deactiving ≡ 0
    → p.start_floor ≡ suc i
    → i < floors
    → get_elem? g.waiting_list i ≡ some queue
    → get_elem? g.waiting_on_floor i ≡ some count
    → request_body true p g ≡ some (tt, joined i queue count p (record g { live = g.live + 1 }))
unfolding request_body
request_body-joins p g i queue count d s h q c =
    ground (arith, add_waiting-joins p (record g { live = g.live + 1 }) i queue count s h q c)

-- While the elevator is not deactivating, a valid request joins the queue of its floor, whatever the
-- counter of the floor is.
pub request_section-joins :
    (p : Passenger) (g : Globals) (i : ℕ) (queue : List Passenger) (count : ℕ)
    → g.deactiving ≡ 0
    → p.start_floor ≡ suc i
    → i < floors
    → get_elem? g.waiting_list i ≡ some queue
    → get_elem? g.waiting_on_floor i ≡ some count
    → request_section true true p g
      ≡ some (tt, joined i queue count p (record g { mutex = false; live = g.live + 1 }))
unfolding request_section
request_section-joins p g i queue count d s h q c =
    with_mutex-some tt (request_body true p) g
      (request_body-joins p (record g { mutex = true }) i queue count d s h q c)
