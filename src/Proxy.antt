-- ===== src/Proxy.antt =====
-- internal/proxy/proxy.go: the relays of the farm's hops.
pub mod Dial
pub mod Serve
pub mod Counters
pub mod Status
pub mod Stream
pub mod Session
pub mod Tandem
