-- ===== src/Farm.antt =====
-- What the step, the forwarder and the workers, each in a process of its own, must agree on.
pub mod Addresses
pub mod Handover
pub mod Waits
pub mod Deadline
pub mod Liveness
pub mod Servers
pub mod Reachable
pub mod Settings
pub mod RunnerFiles
