-- ===== src/Host.antt =====
-- host: what an Instance keeps beside its Sessions.
pub mod Warm
pub mod Runs
pub mod Heartbeat
