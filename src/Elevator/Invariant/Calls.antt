-- ===== src/Elevator/Invariant/Calls.antt =====
-- part3/elevator.c: `start_elevator` and `issue_request` against the invariant.
use kernal_elevator.Base.{
  ℕ, suc, ◌+◌, ◌-◌, ◌%◌, ◌^◌, ◌≤◌, ◌<◌, ◌≡◌, refl, sym, ap, subst, ◌∙◌, ◌≢◌, ◌↔◌, inl, inr, Bool,
  true, false, some, List, [], ◌∷◌, ◌++◌, arith, All-append, length, length-append, length-set,
  get_elem?, get_elem?_of_lt, set, ◌==◌, incr, incr-mod, Bool-cases, some_unique, int_mod,
  range_test,
}
use kernal_elevator.Elevator.State.{Passenger, Globals, floors, with_mutex, with_mutex-some}
use kernal_elevator.Elevator.Queues.{
  WaitsAt, IsQueued, total, counts, Residents-get, Residents-set, total-set, counts-set, counts-get,
}
use kernal_elevator.Elevator.Calls.{start_elevator, request_refused, request_body, request_section}
use kernal_elevator.Elevator.Joining.{joined, request_section-joins}
use kernal_elevator.Elevator.Invariant.Defs.{Inv, Inv-outside}

pub start_elevator-Inv : (g : Globals) → Inv g → Inv (start_elevator g).1
unfolding start_elevator
start_elevator-Inv g v = elim (Bool-cases (g.started == 0)) [
  | inl e ↦ rw (e, start_elevator) (Inv-outside v)
  | inr e ↦ rw (e, start_elevator) v
]

-- A passenger whom `issue_request` lets through.
pub record IsRequest (p : Passenger) : Type 0 where
  pub kind : p.type ≤ 1
  pub from_above : 1 ≤ p.start_floor
  pub from_below : p.start_floor ≤ floors
  pub above : 1 ≤ p.destination_floor
  pub below : p.destination_floor ≤ floors

-- The state with a passenger more at the end of the list of index `i`, when the counters are right.
abbrev pub queued_up : ℕ → List Passenger → Passenger → Globals → Globals
queued_up i queue p g = joined i queue (length queue % 2 ^ 32) p g

pub queued_up-IsQueued :
    (p : Passenger) (g : Globals) (i : ℕ) (queue : List Passenger)
    → IsQueued g.waiting_list g.waiting_on_floor g.num_waiting
    → WaitsAt (1 + i) p
    → get_elem? g.waiting_list i ≡ some queue
    → let h = queued_up i queue p g in IsQueued h.waiting_list h.waiting_on_floor h.num_waiting
queued_up-IsQueued p g i queue v w e = record {
  size = length-set g.waiting_list i (queue ++ p ∷ []) ∙ v.size;
  counted =
      ap (λ ns. set ns i (incr (length queue % 2 ^ 32))) v.counted
      ∙ ap (set (counts g.waiting_list) i)
          (incr-mod (length queue) ∙ ap (λ n. n % 2 ^ 32) (sym (length-append queue (p ∷ []))))
      ∙ sym (counts-set g.waiting_list i (queue ++ p ∷ []));
  waiting =
      ap incr v.waiting
      ∙ incr-mod (total g.waiting_list)
      ∙ ap (λ n. n % 2 ^ 32)
          (omega (
            arith,
            total-set g.waiting_list i (queue ++ p ∷ []) e,
            length-append {0} queue (p ∷ []),
          ));
  residents =
      Residents-set g.waiting_list 1 i _ v.residents
        (All-append _ queue (p ∷ []) (Residents-get g.waiting_list 1 i v.residents e refl) (w, tt));
}

-- `issue_request` refuses a call exactly when the elevator is not started or an argument is out of
-- range.
pub request_refused_lem :
    (start_floor destination_floor type : ℕ) (g : Globals)
    → start_floor < int_mod
    → destination_floor < int_mod
    → type < int_mod
    → (request_refused start_floor destination_floor type g ≡ false) ↔ (
        (g.started ≢ 0)
        × IsRequest (record {
          type = type;
          start_floor = start_floor;
          destination_floor = destination_floor;
        }))
unfolding request_refused
request_refused_lem start_floor destination_floor type g hs hd ht =
    let ts = range_test 1 floors start_floor (omega arith) (omega arith) hs in
    let td = range_test 1 floors destination_floor (omega arith) (omega arith) hd in
    let tt' = range_test 0 1 type (omega arith) (omega arith) ht in
    rw (ts, td, tt') (λ e. ground arith, λ r. ground arith)

-- The state in which kmalloc has given a block to the holder of the lock.
abbrev pub allocated_under_lock : Globals → Globals
allocated_under_lock g = record g { mutex = true; live = g.live + 1 }

request_body_ignores :
    (allocated : Bool) (p : Passenger) (g : Globals)
    → (g.deactiving == 0) ≡ false
    → request_body allocated p g ≡ some (tt, g)
unfolding request_body
request_body_ignores allocated p g e = ground arith

-- While the elevator is not deactivating, a valid request joins the queue of its floor.
pub request_section_accepts :
    (p : Passenger) (g : Globals) (i : ℕ) (queue : List Passenger)
    → IsQueued g.waiting_list g.waiting_on_floor g.num_waiting
    → g.deactiving ≡ 0
    → p.start_floor ≡ suc i
    → i < floors
    → get_elem? g.waiting_list i ≡ some queue
    → request_section true true p g
      ≡ some (tt, record (queued_up i queue p (allocated_under_lock g)) { mutex = false })
request_section_accepts p g i queue v d s h e =
    request_section-joins p g i queue (length queue % 2 ^ 32) d s h e
      (ap (λ ns. get_elem? ns i) v.counted ∙ counts-get g.waiting_list i e)

pub queued_up-Inv :
    (p : Passenger) (g : Globals) (i : ℕ) (queue : List Passenger)
    → Inv g
    → WaitsAt (1 + i) p
    → get_elem? g.waiting_list i ≡ some queue
    → Inv (record (queued_up i queue p (allocated_under_lock g)) { mutex = false })
queued_up-Inv p g i queue v w e = record {
  track = v.track;
  cabin = v.cabin;
  empty_clean = v.empty_clean;
  queued = queued_up-IsQueued p g i queue v.queued w e;
  blocks =
      omega
        (arith, total-set g.waiting_list i (queue ++ p ∷ []) e, length-append {0} queue (p ∷ []));
}

-- The section of `issue_request` for a valid request keeps the invariant, and it does not fault if
-- kmalloc has memory.
pub request_section-Inv :
    (locked : Bool) (p : Passenger) (g : Globals)
    → IsRequest p
    → Inv g
    → (h : Globals) × (request_section locked true p g ≡ some (tt, h)) × Inv h
unfolding request_section
request_section-Inv false p g r v = (_, refl, Inv-outside v)
request_section-Inv true p g r v = elim (Bool-cases (g.deactiving == 0)) [
  | inl e ↦
      let (queue, q) = get_elem?_of_lt g.waiting_list (p.start_floor - 1) (omega arith) in
      (
        _,
        request_section_accepts p g (p.start_floor - 1) queue v.queued (ground arith) (omega arith)
            (omega arith) q,
        queued_up-Inv p g (p.start_floor - 1) queue v (omega arith) q,
      )
  | inr e ↦ (
    record g { mutex = false },
    with_mutex-some tt (request_body true p) g
        (request_body_ignores true p (record g { mutex = true }) e),
    Inv-outside v,
  )
]

request_without_memory :
    (p : Passenger) (g : Globals) {h : Globals}
    → request_section true false p g ≡ some (tt, h)
    → h ≡ record g { mutex = false }
unfolding request_section request_body with_mutex
request_without_memory p g e = ground arith

-- Whether or not kmalloc has memory: if the section returns, it keeps the invariant.
pub request_section_returns :
    (locked allocated : Bool) (p : Passenger) (g : Globals) {h : Globals}
    → IsRequest p
    → Inv g
    → request_section locked allocated p g ≡ some (tt, h)
    → Inv h
unfolding request_section with_mutex
request_section_returns locked true p g r v e =
    let (k, f, w) = request_section-Inv locked p g r v in subst (λ o. Inv o.1) (some_unique f e) w
request_section_returns true false p g r v e = rw (request_without_memory p g e) (Inv-outside v)
request_section_returns false false p g r v e =
    subst (λ o. Inv o.1) (some_unique refl e) (Inv-outside v)
