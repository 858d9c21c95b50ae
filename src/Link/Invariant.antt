-- ===== src/Link/Invariant.antt =====
-- src/link.rs: what holds of a link between two calls.
pub mod Engine
pub mod Lssu
pub mod Traffic
pub mod Calls
pub mod Time
use mtp.Base.{◌≡◌, ◌↔◌, ◌≢◌, true, false}
use mtp.Link.Types.{Mtp2State}
use mtp.Link.Engine.{Mtp2Link}
use mtp.Link.Outbound.{is_none}
use mtp.Link.Lssu.{carries_traffic}

-- Alignment has begun, and traffic has not.
abbrev pub IsAligning : Mtp2State → Type 0
IsAligning s = (carries_traffic s ≡ false) × (s ≢ Mtp2State.out_of_service)

-- Which timers run in which state, and what the flags of a link say in each.
pub record Inv (l : Mtp2Link) : Type 0 where
  pub t1_runs : is_none l.t1 ≡ false ↔ l.state ≡ Mtp2State.aligned_ready
  pub t2_runs : is_none l.t2 ≡ false ↔ l.state ≡ Mtp2State.not_aligned
  pub t3_runs : is_none l.t3 ≡ false ↔ l.state ≡ Mtp2State.aligned
  pub t4_runs : is_none l.t4 ≡ false ↔ l.state ≡ Mtp2State.proving
  pub t6_runs : is_none l.t6 ≡ false ↔ ((carries_traffic l.state ≡ true) × (l.remote_busy ≡ true))
  pub t7_runs : is_none l.t7 ≡ false → carries_traffic l.state ≡ true
  pub quiet : IsAligning l.state → (l.remote_busy ≡ false) × (l.remote_processor_outage ≡ false)
  pub powered : l.state ≢ Mtp2State.out_of_service → l.active ≡ true
  pub healthy : carries_traffic l.state ≡ true → l.suerm.failed ≡ false
  pub ready : l.state ≡ Mtp2State.aligned_ready → l.local_processor_outage ≡ false
  pub not_ready : l.state ≡ Mtp2State.aligned_not_ready → l.local_processor_outage ≡ true
  pub serving : l.state ≡ Mtp2State.in_service → l.local_processor_outage ≡ false
  pub outage : l.state ≡ Mtp2State.processor_outage → l.local_processor_outage ≡ true
