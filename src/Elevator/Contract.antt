-- ===== src/Elevator/Contract.antt =====
-- What each function of part3/elevator.c promises to its callers.
pub mod Requests
pub mod Queueing
pub mod Stops
pub mod Outcomes
pub mod Turns
pub mod Stations
pub mod Loading
