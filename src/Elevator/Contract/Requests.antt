-- ===== src/Elevator/Contract/Requests.antt =====
-- part3/elevator.c: `issue_request`, on every branch.
use kernal_elevator.Base.{
  ℕ, suc, ◌+◌, ◌-◌, ◌<◌, ◌≡◌, refl, ◌≢◌, ◌⊎◌, inl, inr, Bool, true, false, Option, none, some, List,
  [], ◌∷◌, ◌++◌, arith, length-append, get_elem?, get_elem?_of_lt, get_elem?-set_ne,
  get_elem?-set_self, Bool-cases, int_mod,
}
use kernal_elevator.Elevator.State.{Passenger, Globals, with_mutex}
use kernal_elevator.Elevator.Queues.{total, total-set}
use kernal_elevator.Elevator.Calls.{request_refused, request_body, request_section, issue_request}
use kernal_elevator.Elevator.Invariant.Defs.{Inv}
use kernal_elevator.Elevator.Invariant.Calls.{
  IsRequest, request_refused_lem, request_section_accepts, queued_up-Inv,
}

-- The arguments of a call, as ints.
pub record IsInts (p : Passenger) : Type 0 where
  pub type_lt : p.type < int_mod
  pub start_lt : p.start_floor < int_mod
  pub destination_lt : p.destination_floor < int_mod

abbrev pub issue : Bool → Bool → Passenger → Globals → Option (ℕ × Globals)
issue locked allocated p g =
    issue_request locked allocated p.start_floor p.destination_floor p.type g

issue_refused :
    (locked allocated : Bool) (p : Passenger) (g : Globals)
    → request_refused p.start_floor p.destination_floor p.type g ≡ true
    → issue locked allocated p g ≡ some (1, g)
unfolding issue_request
issue_refused locked allocated p g e = rw e refl

pub issue_section :
    (locked allocated : Bool) (p : Passenger) (g : Globals) {h : Globals}
    → request_refused p.start_floor p.destination_floor p.type g ≡ false
    → request_section locked allocated p g ≡ some (tt, h)
    → issue locked allocated p g ≡ some (0, h)
unfolding issue_request
issue_section locked allocated p g e f = rw (e, f) refl

pub passes :
    (p : Passenger) (g : Globals)
    → IsInts p
    → g.started ≢ 0
    → IsRequest p
    → request_refused p.start_floor p.destination_floor p.type g ≡ false
passes p g n s r =
    (request_refused_lem p.start_floor p.destination_floor p.type g n.start_lt n.destination_lt
        n.type_lt).1
      (s, r)

-- A request, its arguments being ints, is refused with 1 and changes nothing if the elevator is
-- not started or an argument is out of range.
pub issue_refuses :
    (locked allocated : Bool) (p : Passenger) (g : Globals)
    → IsInts p
    → (g.started ≡ 0) ⊎ (¬ IsRequest p)
    → issue locked allocated p g ≡ some (1, g)
issue_refuses locked allocated p g n bad =
    elim (Bool-cases (request_refused p.start_floor p.destination_floor p.type g)) [
      | inl e ↦ issue_refused locked allocated p g e
      | inr e ↦
          let (s, r) =
            (request_refused_lem p.start_floor p.destination_floor p.type g n.start_lt
                n.destination_lt n.type_lt).0
              e in
          absurd (elim bad [ inl z ↦ s z | inr no_request ↦ no_request r ])
    ]

pub record Accepted (p : Passenger) (g h : Globals) : Type 0 where
  pub index : ℕ
  pub queue : List Passenger
  pub floor : p.start_floor ≡ suc index
  pub before : get_elem? g.waiting_list index ≡ some queue
  pub after : get_elem? h.waiting_list index ≡ some (queue ++ p ∷ [])
  pub elsewhere : (j : ℕ) → index ≢ j → get_elem? h.waiting_list j ≡ get_elem? g.waiting_list j
  pub one_more : total h.waiting_list ≡ total g.waiting_list + 1
  pub car : h.elevator ≡ g.elevator
  pub inv : Inv h

-- In a state with the invariant, if the elevator is started and not deactivating, the lock is
-- granted and there is memory, a request with arguments in range returns 0: the passenger joins
-- the end of the list of the start floor, the other lists are as before, one passenger more
-- waits in all, the elevator is untouched and the invariant holds.
pub issue_accepts :
    (p : Passenger) (g : Globals)
    → Inv g
    → IsInts p
    → g.started ≢ 0
    → g.deactiving ≡ 0
    → IsRequest p
    → (h : Globals) × (issue true true p g ≡ some (0, h)) × Accepted p g h
issue_accepts p g v n s d r =
    let i = p.start_floor - 1 in
    let (queue, q) = get_elem?_of_lt g.waiting_list (p.start_floor - 1) (omega arith) in
    let at : p.start_floor ≡ suc (p.start_floor - 1) = omega arith in
    (
      _,
      issue_section true true p g (passes p g n s r)
          (request_section_accepts p g (p.start_floor - 1) queue v.queued d at (omega arith) q),
      record {
        index = p.start_floor - 1;
        queue = queue;
        floor = at;
        before = q;
        after =
            get_elem?-set_self g.waiting_list (p.start_floor - 1) (queue ++ p ∷ []) (omega arith);
        elsewhere =
            λ j ne. get_elem?-set_ne g.waiting_list (p.start_floor - 1) j (queue ++ p ∷ []) ne;
        one_more = omega (
          arith,
          total-set g.waiting_list (p.start_floor - 1) (queue ++ p ∷ []) q,
          length-append {0} queue (p ∷ []),
        );
        car = refl;
        inv = queued_up-Inv p g (p.start_floor - 1) queue v (omega arith) q;
      },
    )

-- If kmalloc has no memory, a request with int arguments in range to an elevator that is started
-- and not deactivating faults.
pub issue_without_memory :
    (p : Passenger) (g : Globals)
    → IsInts p
    → g.started ≢ 0
    → g.deactiving ≡ 0
    → IsRequest p
    → issue true false p g ≡ none
unfolding issue_request request_section request_body with_mutex
issue_without_memory p g n s d r = ground (arith, passes p g n s r)

-- If a signal interrupts the lock, a request with int arguments in range to a started elevator
-- returns 0 and queues nobody, and the mutex that it does not hold is opened.
pub issue_interrupted :
    (allocated : Bool) (p : Passenger) (g : Globals)
    → IsInts p
    → g.started ≢ 0
    → IsRequest p
    → issue false allocated p g ≡ some (0, record g { mutex = false })
unfolding request_section with_mutex
issue_interrupted allocated p g n s r = issue_section false allocated p g (passes p g n s r) refl
