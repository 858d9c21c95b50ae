-- ===== src/Python/Events.antt =====
-- src/python.rs: events.
use Prim.Native.String.{String}
use mtp.Base.{ℕ, List, Option, none, some}
use mtp.Link.Types.{Event, OutOfServiceReason, AlignmentFailure}

-- `PyEvent`.
pub record PyEvent : Type 0 where
  pub kind : String
  pub sio : Option ℕ
  pub sif : Option (List ℕ)
  pub detail : Option String

-- `oos_reason`.
unfoldable pub oos_reason : OutOfServiceReason → String
oos_reason OutOfServiceReason.stopped = "stopped"
oos_reason OutOfServiceReason.received_sios = "received_sios"
oos_reason OutOfServiceReason.alignment_lost = "alignment_lost"
oos_reason OutOfServiceReason.suerm_failure = "suerm_failure"
oos_reason OutOfServiceReason.t6_expired = "t6_expired"
oos_reason OutOfServiceReason.t7_expired = "t7_expired"

-- `align_failure`.
unfoldable pub align_failure : AlignmentFailure → String
align_failure AlignmentFailure.aerm_tripped = "aerm_tripped"
align_failure AlignmentFailure.received_sios = "received_sios"
align_failure AlignmentFailure.t2_expired = "t2_expired"
align_failure AlignmentFailure.t3_expired = "t3_expired"
align_failure AlignmentFailure.t1_expired = "t1_expired"

-- An event of a kind, with no more to say.
abbrev pub plain : String → PyEvent
plain kind = record { kind = kind; sio = none; sif = none; detail = none }

-- `event_to_py`.
unfoldable pub event_to_py : Event → PyEvent
event_to_py Event.in_service = plain "in_service"
event_to_py (Event.out_of_service r) = record (plain "out_of_service") {
  detail = some (oos_reason r);
}
event_to_py (Event.alignment_failed f) = record (plain "alignment_failed") {
  detail = some (align_failure f);
}
event_to_py (Event.msu sio sif) = record (plain "msu") { sio = some sio; sif = some sif }
event_to_py Event.remote_processor_outage = plain "remote_processor_outage"
event_to_py Event.remote_processor_recovered = plain "remote_processor_recovered"
event_to_py Event.remote_busy = plain "remote_busy"
event_to_py Event.remote_busy_ended = plain "remote_busy_ended"
event_to_py Event.retransmission_requested = plain "retransmission_requested"
