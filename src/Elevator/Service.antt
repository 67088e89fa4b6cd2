-- ===== src/Elevator/Service.antt =====
-- What the scheduler does for the passengers, over many turns of its loop.
pub mod Sweep
pub mod Turn
pub mod Round
pub mod Reaches
pub mod Ride
pub mod Leave
pub mod Journey
pub mod Riding
pub mod Whole
pub mod Pickup
