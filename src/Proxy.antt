-- ===== src/Proxy.antt =====
-- The proxy's device and the path of its requests: biology-proxy-dev.c and biology-proxy-bio.c.
pub mod Device
pub mod Requests
pub mod Steps
pub mod Balance
pub mod Sound
pub mod Logs
pub mod Whole
pub mod Tracing
pub mod Session
pub mod Race
pub mod Drain
pub mod Create
pub mod Replay
