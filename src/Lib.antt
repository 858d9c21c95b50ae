-- ===== src/Lib.antt =====
-- mtp2: Message Transfer Part Level 2 (ITU-T Q.703), the data-link layer of SS7.
--
-- The program is a deterministic core without I/O. Signal units are framed and parsed by
-- src/signal_unit.rs; src/link.rs is the engine of one signalling link, which a driver feeds with
-- received units, corrupted units and timer ticks, and from which it takes units to send and events
-- for MTP3. The engine owns a transmit side and a receive side of src/retransmission.rs, which number,
-- buffer and acknowledge MSUs, and two error-rate monitors of src/monitor.rs: the AERM while proving,
-- the SUERM in service.
--
-- Modules and sources:
-- - Base: numbers, words, lists and Booleans that the others share.
-- - Error: src/error.rs, `Mtp2Error`, with `Result` and the `?` operator.
-- - SignalUnit: src/signal_unit.rs. Status (`StatusIndication`), Header (`SuHeader`), Unit
--   (`SignalUnit`), Build (its constructors), Codec (`encode`, `decode`), Text (the `Display`
--   texts); then Octets (the bits of an octet), Valid (the units that fit the wire format), Roundtrip,
--   Reencode, Accept, Short and Readable.
-- - Monitor: src/monitor.rs. Aerm, Suerm; then Trip, Bucket, Rate, Blocks and Windows (exactly
--   when the SUERM fails).
-- - Retransmission: src/retransmission.rs. Seq (7-bit arithmetic), Method, Tx (`TxControl`), Rx
--   (`RxControl`); then Numbering, Polled, Ack, Recovery and Cycle on one controller, and Channel,
--   Flight, Copy and Delivery on two that are joined by a span which loses frames.
-- - Link: src/link.rs. Types, Config, Engine (the state and its helpers), Manage (the primitives
--   of MTP3), Outbound (`poll_transmit`), Lssu (`handle_lssu`), Traffic (`handle_fisu_or_msu`),
--   Inbound (`handle_su`, `handle_corrupted_su`), Time (`tick`), Text (`Display`), Run (any sequence of calls); then
--   Invariant, Diagram (the state diagram), Reports (what the events tell), Proving (how proving
--   ends), Reception (MSUs received in service), Queue (MSUs submitted before the start),
--   Alignment (from power-on to service), Silence (a peer that sends nothing), Attempts (how often
--   proving is tried), Service (the SUERM and the link), Wire (what is sent), and Emergency, Delay
--   and Patience (how T4, T6 and T7 act together).
-- - Duplex: two links of src/link.rs. The root has the two ends and their steps; then Quiet, Sent, Taken,
--   Local, Spans, Forward, Backward and Order (each direction is a span of Retransmission.Channel),
--   Octets, Carried and Stack (the same over the octets of src/signal_unit.rs), Play (steps as a
--   function), and Pairing, Steady, Live, Rise, Service, Together, Ascent, Enter, Start and Up (both ends
--   of an alignment, and the traffic that follows), and Belated, Busy, Held, Pause, Onset, Relief, Restored
--   and Congestion (one end is congested for a while).
-- - Python: src/python.rs. Result (exceptions), Classes, Units (`encode`, `decode`), Events
--   (`event_to_py`), Link (the class `Link`), Methods (its methods that only call the core), Build (the
--   constructors), Repr (`__repr__`), Session (any sequence of calls); then Roundtrip, Told, Wheel and
--   Sending.
-- - Leak: examples/leak_check.rs. Counting (the allocator and the verdict), Cycles (the workloads); then
--   Live, Verdict and Workloads.
-- - Text: the texts of `Display` and `__repr__`, as lists of ASCII codes; Read reads numbers back.
-- - The modules Tests, TimerTests and TrafficTests run the definitions, and apply the results at
--   concrete inputs.
--
-- Correspondence. A method with `&mut self` is a function that returns the new value, with what the
-- method returns beside it. `u8` and `u32` are natural numbers: where the source adds and may wrap
-- (`Suerm::record`, `enter_proving`) the model reduces modulo 2 ^ 32, as a release build does, and
-- saturating operations saturate. An octet is a natural number; a theorem that needs it to be below
-- 256 says so. A `Vec` and a `VecDeque` are lists. An index that the source guards by a test is read
-- by a pattern. The statements of `tick`, each with an early return, are functions that call the next
-- one. Fuel stands in two places: `digits` has one more than the number, and `drain` one more than the
-- events that wait, which is enough (`drain_ends`); other recursion is on lists and numbers of rounds.
--
-- Not modelled: `Debug` texts, those of the errors and of `Event.__repr__`, accessors that return a
-- field, the module wiring of PyO3, and what the leak check prints. The span between two links, the
-- framer and its CRC are the environment: Channel and Duplex describe a span by steps, each of which
-- is possible at any time, under the limit of 127 outstanding MSUs that 7-bit numbers need and that a
-- threshold N1 of at most 127 sees to under PCR. The platform's allocator under the leak check is the
-- environment too: it returns a pointer or null.
pub mod Base
pub mod Duplex
pub mod Error
pub mod Text
pub mod SignalUnit
pub mod Monitor
pub mod Retransmission
pub mod Link
pub mod Python
pub mod Leak
