-- ===== src/Tests.antt =====
-- The theorems at concrete inputs. The farm of these tests has two workers.
mod Farm
mod Config
mod Coordinator
mod Worker
mod Proxy
mod Sccachedist
mod Mesh
mod Process
mod Session
mod Timing
mod Servers
mod Tandem
mod Wrapper
