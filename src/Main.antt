-- ===== src/Main.antt =====
-- cmd/sccache-dist-action.
pub mod Phase
pub mod Pid
pub mod Spawn
pub mod Export
pub mod Dispatch
pub mod Run
