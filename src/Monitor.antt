-- ===== src/Monitor.antt =====
-- src/monitor.rs: the two error-rate monitors.
pub mod Aerm
pub mod Suerm
pub mod Trip
pub mod Bucket
pub mod Rate
pub mod Blocks
pub mod Windows
pub mod Tests
