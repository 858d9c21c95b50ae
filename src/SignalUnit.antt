-- ===== src/SignalUnit.antt =====
-- src/signal_unit.rs: signal-unit framing.
pub mod Status
pub mod Header
pub mod Unit
pub mod Build
pub mod Codec
pub mod Octets
pub mod Valid
pub mod Roundtrip
pub mod Reencode
pub mod Accept
pub mod Short
pub mod Text
pub mod Readable
pub mod Tests
