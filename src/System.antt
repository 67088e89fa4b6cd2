-- ===== src/System.antt =====
-- The module at run time: the scheduler's thread and any number of system calls, interleaved.
pub mod Defs
pub mod Reach
pub mod Ledger
pub mod Moved
pub mod Accounts
pub mod Report
pub mod Refusals
pub mod Pieces
pub mod Shown
pub mod Bags
pub mod Places
pub mod Lines
pub mod FirstCome
pub mod Barred
pub use Defs.*
pub mod Locks
pub mod Exclusion
pub mod Way
pub mod Pursuit
pub mod Liveness
pub mod Cuts
pub mod Ebb
pub mod Boards
pub mod Exits
pub mod Late
pub mod Boot
pub mod Unlocked
pub mod Rides
pub mod Scheduled
pub mod Waiting
pub mod Visits
pub mod Afoot
pub mod Drains
pub mod Answered
