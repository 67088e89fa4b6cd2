-- ===== src/Tests.antt =====
-- Runs on concrete states.
pub mod States
pub mod Calls
pub mod Threads
pub mod Entries
pub mod Clock
pub mod Clients
pub mod Reports
pub mod Locks
pub mod Services
pub mod Queues
pub mod Infected
pub mod Traces
pub mod Unloading
pub mod Sights
