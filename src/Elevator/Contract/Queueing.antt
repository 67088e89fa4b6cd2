-- ===== src/Elevator/Contract/Queueing.antt =====
-- part3/elevator.c: the section of `issue_request`, which moves nobody or lets one passenger join the
-- queue of his floor.
use kernal_elevator.Base.{
  ℕ, suc, ◌-◌, ◌≡◌, refl, ◌⊎◌, inl, inr, Bool, true, false, some, some_unique, List, arith, ap,
  Bool-cases, ◌==◌, get_elem?, get_elem?_of_lt,
}
use kernal_elevator.Elevator.State.{Passenger, Globals, with_mutex}
use kernal_elevator.Elevator.Calls.{request_body, request_section}
use kernal_elevator.Elevator.Keeps.{holdings}
use kernal_elevator.Elevator.Invariant.Defs.{Inv}
use kernal_elevator.Elevator.Invariant.Calls.{
  IsRequest, queued_up, allocated_under_lock, request_section_accepts,
}

pub request-unmoved :
    (locked allocated : Bool) (p : Passenger) (g h : Globals)
    → (locked ≡ false) ⊎ ((g.deactiving == 0) ≡ false)
    → request_section locked allocated p g ≡ some (tt, h)
    → holdings h ≡ holdings g
unfolding request_section request_body with_mutex
request-unmoved locked allocated p g h w e = ground arith

pub no_memory :
    (p : Passenger) (g h : Globals)
    → (g.deactiving == 0) ≡ true
    → request_section true false p g ≡ some (tt, h)
    → holdings h ≡ holdings g
unfolding request_section request_body with_mutex
no_memory p g h d e = ground arith

pub no_room :
    (p : Passenger) (g h : Globals)
    → g.deactiving ≡ 0
    → request_section true false p g ≡ some (tt, h)
    → ⊥
unfolding request_section request_body with_mutex
no_room p g h d e = ground arith

-- The passenger has joined the queue of index `i`.
pub record Joins (p : Passenger) (g h : Globals) : Type 0 where
  pub i : ℕ
  pub queue : List Passenger
  pub start : p.start_floor ≡ suc i
  pub here : get_elem? g.waiting_list i ≡ some queue
  pub after : h ≡ record (queued_up i queue p (allocated_under_lock g)) { mutex = false }

pub joins :
    (p : Passenger) (g h : Globals)
    → Inv g
    → IsRequest p
    → g.deactiving ≡ 0
    → request_section true true p g ≡ some (tt, h)
    → Joins p g h
joins p g h v r d e =
    let (queue, q) = get_elem?_of_lt g.waiting_list (p.start_floor - 1) (omega arith) in
    record {
      i = p.start_floor - 1;
      queue = queue;
      start = omega arith;
      here = q;
      after =
          ap (λ o. o.1)
            (some_unique e (
              request_section_accepts p g (p.start_floor - 1) queue v.queued d (omega arith)
                (omega arith) q));
    }

pub request_section-cases :
    (locked allocated : Bool) (p : Passenger) (g h : Globals)
    → Inv g
    → IsRequest p
    → request_section locked allocated p g ≡ some (tt, h)
    → (holdings h ≡ holdings g) ⊎ Joins p g h
request_section-cases false allocated p g h v r e =
    inl (request-unmoved false allocated p g h (inl refl) e)
request_section-cases true allocated p g h v r e = elim (Bool-cases (g.deactiving == 0)) [
  | inr f ↦ inl (request-unmoved true allocated p g h (inr f) e)
  | inl f ↦ deciding allocated e f
]
  where
    deciding :
        (allocated : Bool)
        → request_section true allocated p g ≡ some (tt, h)
        → (g.deactiving == 0) ≡ true
        → (holdings h ≡ holdings g) ⊎ Joins p g h
    deciding true e f = inr (joins p g h v r (ground arith) e)
    deciding false e f = inl (no_memory p g h f e)
