-- ===== src/Monitor.antt =====
-- internal/monitor: whether the tunnel works.
pub mod Checks
pub mod Rapid
mod Tests
