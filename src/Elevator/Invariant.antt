-- ===== src/Elevator/Invariant.antt =====
-- What holds of the module's variables between any two atomic pieces of its code.
pub mod Defs
pub mod Calls
pub mod Stops
pub mod Car
pub mod Boarding
pub mod Loading
pub mod Motion
pub mod Scheduler
pub use Defs.*
