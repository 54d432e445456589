-- ===== src/System.antt =====
-- The whole backend: what its parts may do to the world, one step after the other.
pub mod Keeping
pub mod Sending
pub mod Batching
pub mod Firing
pub mod Upkeep
pub mod Administration
pub mod Operation
pub mod Background
pub mod Consumption
pub mod Lifecycle
pub mod Integrity
pub mod Deliverable
