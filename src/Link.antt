-- ===== src/Link.antt =====
-- src/link.rs: the signalling-link state machine.
pub mod Types
pub mod Config
pub mod Engine
pub mod Manage
pub mod Outbound
pub mod Lssu
pub mod Traffic
pub mod Inbound
pub mod Time
pub mod Invariant
pub mod Run
pub mod Diagram
pub mod Reports
pub mod Proving
pub mod Emergency
pub mod Delay
pub mod Patience
pub mod Wire
pub mod Service
pub mod Attempts
pub mod Reception
pub mod Queue
pub mod Text
pub mod Alignment
pub mod Silence
pub mod Tests
pub mod TimerTests
pub mod TrafficTests
