-- ===== src/Coordinator.antt =====
-- internal/coordinator/coordinator.go.
pub mod Forward
pub mod Registration
pub mod Run
pub mod Log
pub mod Status
