-- ===== src/Elevator.antt =====
-- part3/elevator.c, the kernel module of the elevator.
pub mod State
pub mod Queues
pub mod Calls
pub mod Joining
pub mod Boarding
pub mod Motion
pub mod Scheduler
pub mod Setup
pub mod Keeps
pub mod Invariant
pub mod Service
pub mod Contract
