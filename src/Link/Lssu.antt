-- ===== src/Link/Lssu.antt =====
-- src/link.rs: received status indications.
use mtp.Base.{Bool, true, false, ◌&&◌, none, some, if◌then◌else◌}
use mtp.SignalUnit.Status.{StatusIndication}
use mtp.Link.Types.{Mtp2State, OutOfServiceReason, AlignmentFailure, Event}
use mtp.Link.Engine.{
  Mtp2Link, emit, enter_proving, enter_in_service, fail_alignment, fail_out_of_service,
}

-- `matches!(self.state, InService | ProcessorOutage)`.
abbrev pub carries_traffic : Mtp2State → Bool
carries_traffic Mtp2State.in_service = true
carries_traffic Mtp2State.processor_outage = true
carries_traffic _ = false

-- `matches!(self.state, NotAligned | Aligned | Proving)`.
abbrev pub is_aligning : Mtp2State → Bool
is_aligning Mtp2State.not_aligned = true
is_aligning Mtp2State.aligned = true
is_aligning Mtp2State.proving = true
is_aligning _ = false

abbrev pub is_sie : StatusIndication → Bool
is_sie StatusIndication.emergency_alignment = true
is_sie _ = false

-- A received SIE makes the alignment an emergency.
unfoldable pub upgrade : StatusIndication → Mtp2Link → Mtp2Link
upgrade status l = if is_sie status && is_aligning l.state then record l { emergency = true } else l

unfoldable pub from_not_aligned : StatusIndication → Mtp2Link → Mtp2Link
from_not_aligned StatusIndication.out_of_service l = l
from_not_aligned StatusIndication.processor_outage l = l
from_not_aligned StatusIndication.busy l = l
from_not_aligned _ l = record l {
  t2 = none;
  state = Mtp2State.aligned;
  t3 = some l.config.t3_aligned;
}

unfoldable pub from_aligned : StatusIndication → Mtp2Link → Mtp2Link
from_aligned StatusIndication.normal_alignment l = enter_proving (record l { t3 = none })
from_aligned StatusIndication.emergency_alignment l = enter_proving (record l { t3 = none })
from_aligned StatusIndication.out_of_service l = fail_alignment AlignmentFailure.received_sios l
from_aligned _ l = l

unfoldable pub from_proving : StatusIndication → Mtp2Link → Mtp2Link
from_proving StatusIndication.emergency_alignment l = enter_proving l
from_proving StatusIndication.out_of_alignment l = record l {
  t4 = none;
  state = Mtp2State.aligned;
  t3 = some l.config.t3_aligned;
}
from_proving StatusIndication.out_of_service l = fail_alignment AlignmentFailure.received_sios l
from_proving _ l = l

unfoldable pub from_aligned_ready : StatusIndication → Mtp2Link → Mtp2Link
from_aligned_ready StatusIndication.processor_outage l =
    emit Event.remote_processor_outage
      (record (enter_in_service l) { remote_processor_outage = true })
from_aligned_ready StatusIndication.out_of_service l =
    fail_alignment AlignmentFailure.received_sios l
from_aligned_ready _ l = l

unfoldable pub from_aligned_not_ready : StatusIndication → Mtp2Link → Mtp2Link
from_aligned_not_ready StatusIndication.out_of_service l =
    fail_alignment AlignmentFailure.received_sios l
from_aligned_not_ready _ l = l

unfoldable pub from_traffic : StatusIndication → Mtp2Link → Mtp2Link
from_traffic StatusIndication.processor_outage l =
    if l.remote_processor_outage
    then l
    else emit Event.remote_processor_outage (record l { remote_processor_outage = true })
from_traffic StatusIndication.busy l =
    let l' =
      if l.remote_busy then l else emit Event.remote_busy (record l { remote_busy = true }) in
    record l' { t6 = some l.config.t6_remote_congestion }
from_traffic StatusIndication.out_of_service l =
    fail_out_of_service OutOfServiceReason.received_sios l
from_traffic _ l = fail_out_of_service OutOfServiceReason.alignment_lost l

-- The `match` of `handle_lssu` on the state and the status.
unfoldable pub lssu_at : Mtp2State → StatusIndication → Mtp2Link → Mtp2Link
lssu_at Mtp2State.out_of_service status l = l
lssu_at Mtp2State.not_aligned status l = from_not_aligned status l
lssu_at Mtp2State.aligned status l = from_aligned status l
lssu_at Mtp2State.proving status l = from_proving status l
lssu_at Mtp2State.aligned_ready status l = from_aligned_ready status l
lssu_at Mtp2State.aligned_not_ready status l = from_aligned_not_ready status l
lssu_at Mtp2State.in_service status l = from_traffic status l
lssu_at Mtp2State.processor_outage status l = from_traffic status l

-- `Mtp2Link::handle_lssu`.
unfoldable pub handle_lssu : StatusIndication → Mtp2Link → Mtp2Link
handle_lssu status l = let l' = upgrade status l in lssu_at l'.state status l'
