-- ===== src/Leak.antt =====
-- examples/leak_check.rs: the memory-leak check, its counting allocator and its two workloads.
pub mod Counting
pub mod Cycles
pub mod Workloads
pub mod Live
pub mod Verdict
pub mod Tests
