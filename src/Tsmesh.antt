-- ===== src/Tsmesh.antt =====
-- internal/tsmesh/tsmesh.go: the tailnet node and what it knows of its peers. tsnet's calls are
-- parameters.
pub mod Peers
pub mod Tags
pub mod Up
pub mod Wait
