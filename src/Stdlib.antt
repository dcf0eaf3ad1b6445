-- ===== src/Stdlib.antt =====
-- The parts of Go's standard library that the program computes with: strconv, strings, time,
-- path/filepath and os/exec.
pub mod Decimal
pub mod Strings
pub mod Duration
pub mod DurationText
pub mod Quote
pub mod Paths
pub mod Environ
pub mod Http
