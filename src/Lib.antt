-- ===== src/Lib.antt =====
-- A model of the elevator of kernal_elevator, and of the programs around it, as functions on explicit
-- state.
--
-- The parts. part3/elevator.c is a kernel module: three system calls (start_elevator, issue_request,
-- stop_elevator), a thread (scheduler) and a proc entry share the file-scope variables under one
-- mutex. part3/syscall/part3.c has the entries of the system calls, which call the module through
-- three pointers; part3/wrappers.h is their face in user space, part3/producer.c and part3/consumer.c
-- are its clients. timer/my_timer.c is a module of its own, which reports the time.
--
-- The files.
--   Base               the names the others share; Base/Word has the arithmetic of a C int, Base/Text
--                      the bytes and the decimal digits of sprintf, with fuel `n + 1` for the digits
--                      of `n`, which has no more than that
--   Elevator/State     the structs, the variables, the mutex, the lists to delete
--   Elevator/Calls     start_elevator, issue_request, stop_elevator, each cut at the lock; Joining
--                      has what a request that is let in changes
--   Elevator/Boarding  unloadPassengers, loadPassengers; Spec states what they should do, Load and
--                      Unload compare the loops with it, Rules and Order have its consequences
--   Elevator/Motion    changeElevatorState, moveElevator
--   Elevator/Scheduler  scheduler, in one turn and in the pieces between which it can be preempted
--   Elevator/Setup     setup_elevator, thread_init_parameter, elevator_init, removeAllPassengers,
--                      elevator_exit
--   Elevator/Queues, Elevator/Invariant, Elevator/Keeps  the invariant, and what an operation leaves
--   Elevator/Contract, Elevator/Service  what callers and passengers see; Service/Pickup is
--                      the turn after a stop
--   System             the threads interleaved, as a step relation on the variables, the place in the
--                      scheduler's loop and the calls that wait for the mutex; Pieces carries a
--                      relation from the operations to the steps; Ledger reads off a run who comes
--                      and who goes, for Moved and Accounts; Way, Pursuit and Liveness follow the
--                      scheduler to a floor, whatever the others do, for Rides (who is aboard),
--                      Visits (who waits) and Answered (who asks); Ebb, Boards, Afoot and Drains
--                      follow everybody until the building is empty, with the calculus of runs in
--                      Cuts; Lines and FirstCome follow the order of a queue, Places and Barred the
--                      car after a stop; Scheduled makes runs that the liveness theorems apply to;
--                      Boot loads the module while calls come, Exits and Late unload it; Locks takes
--                      the sections under the mutex statement by statement, Exclusion compares them
--                      with whole ones
--   Proc               elevator_proc_open, elevator_proc_read, elevator_proc_release; Reference is a
--                      plain description of the text, Exact compares the code with it; Unlocked
--                      opens the entry while the variables change, System/Unlocked compares that
--                      with the states that the threads reach; Log has the two functions that print
--                      lists with printk
--   Syscall            the entries, the stubs and the wrappers; Races has stubs that change
--   User               producer.c and consumer.c: what they choose, in Programs the whole of main,
--                      in Outcomes what each choice of arguments makes of the consumer
--   Timer              my_timer.c; ReadBack is a reader of its text who takes the digits behind the
--                      point for a number, Decimals one who takes them for a decimal fraction
--   Part1              part1/empty.c and part1/part1.c, as the calls that they make
--   Tests              the theorems at concrete states
--
-- The choices. An int is its 32-bit pattern, a natural number; `none` is undefined behaviour: an index
-- out of range, a write through NULL, a buffer that overflows, a block freed twice. The answers of the
-- kernel (the lock, kmalloc, proc_create, kthread_run, the stop flag) are arguments. The mutex, the
-- number of live passenger blocks, the number of live blocks for `temp` and the seconds slept are
-- fields of the state. A section under the mutex is one step, one whose lock is interrupted too,
-- save in System/Locks, where the unlock that follows can open a mutex that another thread holds. An
-- open of /proc/elevator takes no lock: it is one step in Proc, and in Proc/Unlocked each of its looks
-- at the variables can see another state, a walk of a waiting list being one look. The random numbers
-- of the producer are a list; when it is used up before the loop ends, the result is `none`.
--
-- The invariant (Elevator/Invariant/Defs): the car is at a floor and its next floor is a neighbour,
-- `loads` is at most the capacity and at least the number of passengers aboard, a car that is not
-- marked as infected has no zombie, an empty car is not infected, each waiting list holds passengers
-- of its own floor, the counters agree with the lists modulo 2 ^ 32, and the live blocks are those
-- aboard and those waiting.
--
-- Not modelled: the scheduling policy of the kernel, printk beyond the reports, the copies between
-- user space and the kernel that fail half-way, the kernel's own header part3/syscall/syscalls.h and
-- its table, and what strace recorded of the two programs of part1.
pub mod Base
pub mod Elevator
pub mod System
pub mod Proc
pub mod Syscall
pub mod User
pub mod Timer
pub mod Part1
pub mod Tests
