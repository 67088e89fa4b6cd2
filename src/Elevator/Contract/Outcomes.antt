-- ===== src/Elevator/Contract/Outcomes.antt =====
-- part3/elevator.c: `issue_request` and `stop_elevator`, whatever their arguments and the answers of
-- the kernel.
use native.Mathlib.Decide.{ℕ_discrete}
use kernal_elevator.Base.{
  ℕ, ◌≡◌, refl, sym, subst, ◌≢◌, ◌⊎◌, inl, inr, Bool, true, false, Option, none, some, arith,
  Bool-cases,
}
use kernal_elevator.Elevator.State.{Passenger, Globals, with_mutex, free_list, free_all}
use kernal_elevator.Elevator.Calls.{
  request_refused, request_body, request_section, stop_entry, stop_section, stop_elevator,
}
use kernal_elevator.Elevator.Invariant.Defs.{Inv}
use kernal_elevator.Elevator.Invariant.Calls.{IsRequest, request_refused_lem}
use kernal_elevator.Elevator.Contract.Requests.{
  IsInts, issue, Accepted, passes, issue_section, issue_refuses, issue_accepts,
  issue_without_memory, issue_interrupted,
}
use kernal_elevator.Elevator.Contract.Stops.{stopped_at, stop_removes_aboard, stop_refuses}

-- The results of a request, each with the circumstances in which it occurs; `none` is a fault.
pub data Issued (locked allocated : Bool) (p : Passenger) (g : Globals)
    : Option (ℕ × Globals) → Type 0 where
  refused : (g.started ≡ 0) ⊎ (¬ IsRequest p) → Issued locked allocated p g (some (1, g))
  interrupted :
      locked ≡ false
      → g.started ≢ 0
      → IsRequest p
      → Issued locked allocated p g (some (0, record g { mutex = false }))
  dropped :
      locked ≡ true
      → g.started ≢ 0
      → IsRequest p
      → g.deactiving ≢ 0
      → Issued locked allocated p g (some (0, record g { mutex = false }))
  faulted :
      locked ≡ true
      → g.started ≢ 0
      → IsRequest p
      → g.deactiving ≡ 0
      → allocated ≡ false
      → Issued locked allocated p g none
  accepted :
      {h : Globals}
      → locked ≡ true
      → g.started ≢ 0
      → IsRequest p
      → g.deactiving ≡ 0
      → allocated ≡ true
      → Accepted p g h
      → Issued locked allocated p g (some (0, h))

issue_dropped :
    (allocated : Bool) (p : Passenger) (g : Globals)
    → IsInts p
    → g.started ≢ 0
    → IsRequest p
    → g.deactiving ≢ 0
    → issue true allocated p g ≡ some (0, record g { mutex = false })
unfolding request_section request_body with_mutex
issue_dropped allocated p g n s r d =
    issue_section true allocated p g (passes p g n s r) (ground arith)

module _ (p : Passenger) (g : Globals) (v : Inv g) (n : IsInts p) where
  issue_let_in :
      (locked allocated : Bool)
      → g.started ≢ 0
      → IsRequest p
      → Issued locked allocated p g (issue locked allocated p g)
  issue_let_in false allocated s r =
      subst (Issued false allocated p g) (sym (issue_interrupted allocated p g n s r))
        (interrupted refl s r)
  issue_let_in true allocated s r = elim (ℕ_discrete g.deactiving 0) [
    | no d ↦
        subst (Issued true allocated p g) (sym (issue_dropped allocated p g n s r d))
          (dropped refl s r d)
    | yes d ↦ with_lock allocated d
  ]
    where
      with_lock :
          (allocated : Bool)
          → g.deactiving ≡ 0
          → Issued true allocated p g (issue true allocated p g)
      with_lock false d =
          subst (Issued true false p g) (sym (issue_without_memory p g n s d r))
            (faulted refl s r d refl)
      with_lock true d =
          let (h, e, a) = issue_accepts p g v n s d r in
          subst (Issued true true p g) (sym e) (accepted refl s r d refl a)

  -- From a state with the invariant, a request with int arguments has one of five outcomes. It
  -- returns 1 and changes nothing if the elevator is not started or an argument is out of range.
  -- Otherwise, if a signal interrupts the lock, or the lock is granted and the elevator is
  -- deactivating, it returns 0 with the mutex open and nothing else changed; if the lock is
  -- granted, the elevator is not deactivating and there is no memory, it faults; if there is
  -- memory, it returns 0: the passenger joins the end of the list of the start floor, the other
  -- lists are as before, one passenger more waits in all, the elevator is untouched and the
  -- invariant holds.
  pub issue_outcomes :
      (locked allocated : Bool) → Issued locked allocated p g (issue locked allocated p g)
  issue_outcomes locked allocated =
      let (let_in, _) =
        request_refused_lem p.start_floor p.destination_floor p.type g n.start_lt n.destination_lt
          n.type_lt in
      elim (Bool-cases (request_refused p.start_floor p.destination_floor p.type g)) [
        | inr e ↦ let (s, r) = let_in e in issue_let_in locked allocated s r
        | inl e ↦
            let why : (g.started ≡ 0) ⊎ (¬ IsRequest p) = elim (ℕ_discrete g.started 0) [
              | yes z ↦ inl z
              | no s ↦ inr (λ r. absurd (cc (passes p g n s r)))
            ] in
            subst (Issued locked allocated p g) (sym (issue_refuses locked allocated p g n why))
              (refused why)
      ]

-- The same for a stop.
pub data Stopped (locked : Bool) (g : Globals) : Option (ℕ × Globals) → Type 0 where
  turned_away : (g.started ≡ 0) ⊎ (g.deactiving ≢ 0) → Stopped locked g (some (1, g))
  kept_aboard :
      locked ≡ false
      → g.started ≢ 0
      → g.deactiving ≡ 0
      → Stopped locked g (
          some (
            0,
            record g {
              elevator = record g.elevator { deactiving = 1; started = 0 };
              mutex = false;
            },
          ))
  emptied :
      locked ≡ true → g.started ≢ 0 → g.deactiving ≡ 0 → Stopped locked g (some (0, stopped_at g))

stop_turned_away :
    (locked : Bool) (g : Globals)
    → (g.started ≡ 0) ⊎ (g.deactiving ≢ 0)
    → Stopped locked g (stop_elevator locked g)
stop_turned_away locked g why =
    subst (Stopped locked g) (sym (stop_refuses locked g why)) (turned_away why)

stop_interrupted :
    (g : Globals)
    → g.started ≢ 0
    → g.deactiving ≡ 0
    → stop_elevator false g
      ≡ some (
        0,
        record g { elevator = record g.elevator { deactiving = 1; started = 0 }; mutex = false },
      )
unfolding stop_elevator stop_entry stop_section with_mutex free_list free_all
stop_interrupted g s d = ground arith

-- A stop has one of three outcomes. It returns 1 and changes nothing if the elevator is not
-- started or is deactivating. Otherwise it returns 0, with `deactiving` set and `started`
-- cleared: with the lock, the passengers aboard are removed and freed, and `loads`, `status` and
-- the waiting lists stay as they were; if a signal interrupts the lock, they stay aboard, and
-- the mutex is open.
pub stop_outcomes : (locked : Bool) (g : Globals) → Stopped locked g (stop_elevator locked g)
stop_outcomes locked g = elim (ℕ_discrete g.started 0) [
  | yes z ↦ stop_turned_away locked g (inl z)
  | no s ↦ elim (ℕ_discrete g.deactiving 0) [
    | no d ↦ stop_turned_away locked g (inr d)
    | yes d ↦ stop_let_in locked s d
  ]
]
  where
    stop_let_in :
        (locked : Bool)
        → g.started ≢ 0
        → g.deactiving ≡ 0
        → Stopped locked g (stop_elevator locked g)
    stop_let_in true s d =
        subst (Stopped true g) (sym (stop_removes_aboard g s d)) (emptied refl s d)
    stop_let_in false s d =
        subst (Stopped false g) (sym (stop_interrupted g s d)) (kept_aboard refl s d)
