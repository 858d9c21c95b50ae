-- ===== src/Link/Types.antt =====
-- src/link.rs: the states of a link, and what it reports to MTP3.
use mtp.Base.{ℕ, List}

-- `Mtp2State`.
pub data Mtp2State : Type 0 where
  out_of_service not_aligned aligned proving : Mtp2State
  aligned_ready aligned_not_ready in_service processor_outage : Mtp2State

-- `OutOfServiceReason`.
pub data OutOfServiceReason : Type 0 where
  stopped received_sios alignment_lost suerm_failure t6_expired t7_expired : OutOfServiceReason

-- `AlignmentFailure`.
pub data AlignmentFailure : Type 0 where
  aerm_tripped received_sios t2_expired t3_expired t1_expired : AlignmentFailure

-- `Event`.
pub data Event : Type 0 where
  in_service : Event
  out_of_service : OutOfServiceReason → Event
  alignment_failed : AlignmentFailure → Event
  msu : ℕ → List ℕ → Event
  remote_processor_outage remote_processor_recovered : Event
  remote_busy remote_busy_ended retransmission_requested : Event
