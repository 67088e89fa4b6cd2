-- ===== src/Syscall/Entry.antt =====
-- part3/wrappers.h and part3/syscall/part3.c: from the user's call to the module and back.
use kernal_elevator.Base.{
  ℕ, ◌-◌, ◌<◌, ◌≡◌, refl, ap, Bool, true, false, Option, none, some, ◌>>=◌, arith, int_mod, inl,
  inr, if◌then◌else◌, Bool-cases,
}
use kernal_elevator.Elevator.State.{Globals}
use kernal_elevator.Elevator.Calls.{start_elevator, issue_request, stop_elevator}
use kernal_elevator.Syscall.{
  Stubs, Answer, sys_start_elevator, sys_issue_request, sys_stop_elevator, do_syscall, libc_return,
  wrap_start_elevator, wrap_issue_request, wrap_stop_elevator,
}

abbrev pub all_stubs : Bool → Stubs
all_stubs b = record { start_stub = b; issue_stub = b; stop_stub = b }

issue_request-result :
    (l k : Bool) (x y z : ℕ) (g : Globals) {n : ℕ} {h : Globals}
    → issue_request l k x y z g ≡ some (n, h)
    → n < 2
unfolding issue_request
issue_request-result l k x y z g e = ground arith

stop_elevator-result :
    (l : Bool) (g : Globals) {n : ℕ} {h : Globals} → stop_elevator l g ≡ some (n, h) → n < 2
unfolding stop_elevator
stop_elevator-result l g e = ground arith

-- An answer below 2 passes the C library as it is.
libc_return-small :
    (o : Option (ℕ × Globals))
    → ((n : ℕ) (h : Globals) → o ≡ some (n, h) → n < 2)
    → (o >>= λ r. some (libc_return r.0, r.1)) ≡ o
unfolding libc_return
libc_return-small none b = refl
libc_return-small (some (n, h)) b = ap some (ground (arith, b n h refl))

start_lem :
    (s : Stubs) (a : Answer) (g : Globals)
    → wrap_start_elevator s a g
      ≡ (if s.start_stub then some (start_elevator g) else some (int_mod - 1, g))
unfolding wrap_start_elevator do_syscall sys_start_elevator libc_return start_elevator
start_lem s a g = ground arith

issue_lem :
    (s : Stubs) (a : Answer) (x y z : ℕ) (g : Globals)
    → wrap_issue_request s a x y z g
      ≡ (if s.issue_stub then issue_request a.locked a.allocated x y z g else some (int_mod - 1, g))
unfolding wrap_issue_request do_syscall sys_issue_request libc_return
issue_lem s a x y z g = elim (Bool-cases s.issue_stub) [
  | inl e ↦ rw e (
      libc_return-small (issue_request a.locked a.allocated x y z g)
        (λ n h. issue_request-result a.locked a.allocated x y z g))
  | inr e ↦ rw e refl
]

stop_lem :
    (s : Stubs) (a : Answer) (g : Globals)
    → wrap_stop_elevator s a g
      ≡ (if s.stop_stub then stop_elevator a.locked g else some (int_mod - 1, g))
unfolding wrap_stop_elevator do_syscall sys_stop_elevator libc_return
stop_lem s a g = elim (Bool-cases s.stop_stub) [
  | inl e ↦
      rw e (libc_return-small (stop_elevator a.locked g) (λ n h. stop_elevator-result a.locked g))
  | inr e ↦ rw e refl
]

-- Each of the three wrappers in user space, whichever of the stubs are set, returns what the
-- function of the module returns and leaves the state that it leaves, a fault included, if its
-- own stub is set; if that is not set, it returns -1 and changes nothing.
pub wrappers_lem :
    (s : Stubs) (a : Answer) (x y z : ℕ) (g : Globals)
    → (wrap_start_elevator s a g
        ≡ (if s.start_stub then some (start_elevator g) else some (int_mod - 1, g)))
      × (wrap_issue_request s a x y z g ≡ (
          if s.issue_stub
          then issue_request a.locked a.allocated x y z g
          else some (int_mod - 1, g)))
      × (wrap_stop_elevator s a g
          ≡ (if s.stop_stub then stop_elevator a.locked g else some (int_mod - 1, g)))
wrappers_lem s a x y z g = (start_lem s a g, issue_lem s a x y z g, stop_lem s a g)

-- While the stubs are not set, each of the three wrappers in user space returns -1 and changes
-- nothing.
pub unloaded_calls :
    (a : Answer) (x y z : ℕ) (g : Globals)
    → (wrap_start_elevator (all_stubs false) a g ≡ some (int_mod - 1, g))
      × (wrap_issue_request (all_stubs false) a x y z g ≡ some (int_mod - 1, g))
      × (wrap_stop_elevator (all_stubs false) a g ≡ some (int_mod - 1, g))
unloaded_calls a x y z g = wrappers_lem (all_stubs false) a x y z g

-- While the stubs of the module are set, the wrapper of `issue_request` in user space returns
-- what the module returns and leaves the state that it leaves, a fault included.
pub loaded_issue :
    (a : Answer) (x y z : ℕ) (g : Globals)
    → wrap_issue_request (all_stubs true) a x y z g ≡ issue_request a.locked a.allocated x y z g
loaded_issue = issue_lem (all_stubs true)
