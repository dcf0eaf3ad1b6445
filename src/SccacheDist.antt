-- ===== src/SccacheDist.antt =====
-- internal/sccachedist/sccachedist.go: the files and the environment of the sccache-dist processes.
pub mod Files
pub mod Conf
pub mod Toml
pub mod Quoted
pub mod RoundTrip
pub mod Foreign
pub mod Env
pub mod Process
