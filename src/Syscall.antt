-- ===== src/Syscall.antt =====
-- part3/syscall/part3.c: the system calls that the kernel has built in, and the table and the wrappers
-- that lead to them (part3/syscall/syscall_64.tbl, part3/wrappers.h).
pub mod Entry
pub mod Races
use kernal_elevator.Base.{
  ℕ, ◌-◌, ◌+◌, ◌^◌, Bool, true, false, Option, none, some, ◌==◌, leb, if◌then◌else◌, int_mod, ◌>>=◌,
}
use kernal_elevator.Elevator.State.{Globals}
use kernal_elevator.Elevator.Calls.{start_elevator, issue_request, stop_elevator}

-- -ENOSYS, as an int
abbrev pub enosys : ℕ
enosys = int_mod - 38

-- The stub pointers: NULL until the module sets them to its functions.
pub record Stubs : Type 0 where
  pub start_stub : Bool
  pub issue_stub : Bool
  pub stop_stub : Bool

-- What the kernel answers to a call that reaches the module: the lock, and kmalloc.
pub record Answer : Type 0 where
  pub locked : Bool
  pub allocated : Bool

unfoldable pub sys_start_elevator : Stubs → Globals → ℕ × Globals
sys_start_elevator s g = if s.start_stub then start_elevator g else (enosys, g)

unfoldable pub sys_issue_request : Stubs → Answer → ℕ → ℕ → ℕ → Globals → Option (ℕ × Globals)
sys_issue_request s a start_floor destination_floor type g =
    if s.issue_stub
    then issue_request a.locked a.allocated start_floor destination_floor type g
    else some (enosys, g)

unfoldable pub sys_stop_elevator : Stubs → Answer → Globals → Option (ℕ × Globals)
sys_stop_elevator s a g = if s.stop_stub then stop_elevator a.locked g else some (enosys, g)

-- The numbers of part3/wrappers.h.
abbrev pub nr_start_elevator : ℕ
nr_start_elevator = 335

abbrev pub nr_issue_request : ℕ
nr_issue_request = 336

abbrev pub nr_stop_elevator : ℕ
nr_stop_elevator = 337

-- The rows that the table adds. Its other numbers lead to calls that are not the elevator's.
unfoldable pub do_syscall : Stubs → Answer → ℕ → ℕ → ℕ → ℕ → Globals → Option (ℕ × Globals)
do_syscall s a nr x y z g =
    if nr == 335
    then some (sys_start_elevator s g)
    else if nr == 336
    then sys_issue_request s a x y z g
    else if nr == 337
    then sys_stop_elevator s a g
    else none

-- The C library's `syscall`: an error between -4095 and -1 becomes -1.
unfoldable pub libc_return : ℕ → ℕ
libc_return n = if leb (int_mod - 4095) n then int_mod - 1 else n

unfoldable pub wrap_start_elevator : Stubs → Answer → Globals → Option (ℕ × Globals)
wrap_start_elevator s a g = do
  (n, h) ← do_syscall s a nr_start_elevator 0 0 0 g
  some (libc_return n, h)

unfoldable pub wrap_issue_request : Stubs → Answer → ℕ → ℕ → ℕ → Globals → Option (ℕ × Globals)
wrap_issue_request s a start dest type g = do
  (n, h) ← do_syscall s a nr_issue_request start dest type g
  some (libc_return n, h)

unfoldable pub wrap_stop_elevator : Stubs → Answer → Globals → Option (ℕ × Globals)
wrap_stop_elevator s a g = do
  (n, h) ← do_syscall s a nr_stop_elevator 0 0 0 g
  some (libc_return n, h)
