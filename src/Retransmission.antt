-- ===== src/Retransmission.antt =====
-- src/retransmission.rs: sequence numbers, the transmit side and the receive side.
pub mod Seq
pub mod Method
pub mod Tx
pub mod Rx
pub mod Numbering
pub mod Polled
pub mod Channel
pub mod Flight
pub mod Copy
pub mod Ack
pub mod Recovery
pub mod Cycle
pub mod Delivery
pub mod Tests
