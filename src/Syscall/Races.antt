-- ===== src/Syscall/Races.antt =====
-- part3/syscall/part3.c: an entry reads its stub pointer twice, for the test and for the call, and
-- elevator_init and elevator_exit of part3/elevator.c set the pointers in between as they like.
use kernal_elevator.Base.{
  ℕ, ◌≡◌, ◌↔◌, refl, Bool, true, false, Option, none, some, inl, inr, if◌then◌else◌, Bool-cases,
  Option-cases, arith, ◌<◌, int_mod, sym, subst,
}
use kernal_elevator.Elevator.State.{Passenger, Globals}
use kernal_elevator.Elevator.Calls.{
  start_elevator, issue_request, request_refused, stop_elevator, stop_entry,
}
use kernal_elevator.Elevator.Invariant.Defs.{Inv}
use kernal_elevator.Elevator.Invariant.Calls.{request_section-Inv, request_refused_lem}
use kernal_elevator.Elevator.Invariant.Stops.{stop_section-Inv, stop_entry-Inv}
use kernal_elevator.Syscall.{
  Stubs, Answer, enosys, sys_start_elevator, sys_issue_request, sys_stop_elevator,
}

-- A system call, with its arguments.
pub data Entry : Type 0 where
  starts : Entry
  issues : (start_floor destination_floor type : ℕ) → Entry
  stops : Entry

unfoldable pub stub_of : Entry → Stubs → Bool
stub_of starts s = s.start_stub
stub_of (issues _ _ _) s = s.issue_stub
stub_of stops s = s.stop_stub

-- The function of the module that the stub points to.
unfoldable pub function_of : Entry → Answer → Globals → Option (ℕ × Globals)
function_of starts a g = some (start_elevator g)
function_of (issues x y z) a g = issue_request a.locked a.allocated x y z g
function_of stops a g = stop_elevator a.locked g

-- The entry, when its pointer does not change.
unfoldable pub sys_call : Entry → Stubs → Answer → Globals → Option (ℕ × Globals)
sys_call starts s a g = some (sys_start_elevator s g)
sys_call (issues x y z) s a g = sys_issue_request s a x y z g
sys_call stops s a g = sys_stop_elevator s a g

-- The entry, when the test sees the pointers `tested` and the call the pointers `called`. A call
-- through NULL is a fault.
unfoldable pub sys_call_while : Entry → Stubs → Stubs → Answer → Globals → Option (ℕ × Globals)
sys_call_while e tested called a g =
    if stub_of e tested
    then (if stub_of e called then function_of e a g else none)
    else some (enosys, g)

-- While the pointers stand, this is the entry.
pub sys_call_still :
    (e : Entry) (s : Stubs) (a : Answer) (g : Globals) → sys_call_while e s s a g ≡ sys_call e s a g
unfolding sys_call_while sys_call stub_of function_of sys_start_elevator sys_issue_request
    sys_stop_elevator
sys_call_still starts s a g = ground arith
sys_call_still (issues x y z) s a g = ground arith
sys_call_still stops s a g = ground arith

-- The arguments are ints.
abbrev pub HasInts : Entry → Type 0
HasInts starts = Unit
HasInts (issues x y z) = (x < int_mod) × (y < int_mod) × (z < int_mod)
HasInts stops = Unit

issue_request-returns :
    (locked : Bool) (x y z : ℕ) (g : Globals)
    → Inv g
    → HasInts (issues x y z)
    → (r : ℕ × Globals) × (issue_request locked true x y z g ≡ some r)
unfolding issue_request
issue_request-returns locked x y z g v (hx, hy, hz) = elim (Bool-cases (request_refused x y z g)) [
  | inl r ↦ ((1, g), rw r refl)
  | inr r ↦
      let p : Passenger = record { type = z; start_floor = x; destination_floor = y } in
      let (h, f, _) =
        request_section-Inv locked p g ((request_refused_lem x y z g hx hy hz).0 r).1 v in
      ((0, h), rw (r, f) refl)
]

stop_elevator-returns :
    (locked : Bool) (g : Globals) → Inv g → (r : ℕ × Globals) × (stop_elevator locked g ≡ some r)
unfolding stop_elevator
stop_elevator-returns locked g v = elim (Option-cases (stop_entry g)) [
  | inl e ↦ ((1, g), ground (arith, e))
  | inr (h, e) ↦
      let (k, f, _) = stop_section-Inv locked h (stop_entry-Inv g h v e) in
      ((0, k), ground (arith, e, f))
]

function_of-returns :
    (e : Entry) (a : Answer) (g : Globals)
    → Inv g
    → a.allocated ≡ true
    → HasInts e
    → (r : ℕ × Globals) × (function_of e a g ≡ some r)
unfolding function_of
function_of-returns starts a g v m i = (start_elevator g, refl)
function_of-returns (issues x y z) a g v m i =
    subst (λ b. (r : ℕ × Globals) × (issue_request a.locked b x y z g ≡ some r)) (sym m)
      (issue_request-returns a.locked x y z g v i)
function_of-returns stops a g v m i = stop_elevator-returns a.locked g v

-- In a state with the invariant, with memory and int arguments, a system call whose entry reads
-- its stub for the test and again for the call faults exactly if the test sees the stub set and
-- the call sees it cleared.
pub stub_races :
    (e : Entry) (tested called : Stubs) (a : Answer) (g : Globals)
    → Inv g
    → a.allocated ≡ true
    → HasInts e
    → (sys_call_while e tested called a g ≡ none)
      ↔ ((stub_of e tested ≡ true) × (stub_of e called ≡ false))
unfolding sys_call_while
stub_races e tested called a g v m i =
    let (r, f) = function_of-returns e a g v m i in
    (λ h. ground (arith, f, h), λ c. rw (c.0, c.1) refl)
