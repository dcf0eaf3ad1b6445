-- ===== src/Worker.antt =====
-- internal/worker: the worker's run, its address, the guard on the coordinator and the supervisor of
-- the local server.
pub mod Address
pub mod Guard
pub mod Supervisor
pub mod Run
pub mod Probe
