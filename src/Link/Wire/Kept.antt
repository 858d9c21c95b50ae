-- ===== src/Link/Wire/Kept.antt =====
-- src/link.rs: which handlers leave the transmit and the receive side alone.
use mtp.Base.{◌≡◌, arith, Bool}
use mtp.SignalUnit.Status.{StatusIndication}
use mtp.Link.Engine.{
  Mtp2Link, emit, stop_all_timers, enter_proving, enter_in_service, fail_alignment,
  fail_out_of_service, proving_succeeded, proving_aborted, poll_event,
}
use mtp.Link.Manage.{outage_at, recovered_at}
use mtp.Link.Manage
use mtp.Link.Lssu.{
  upgrade, from_not_aligned, from_aligned, from_proving, from_aligned_ready, from_aligned_not_ready,
  from_traffic, lssu_at, handle_lssu,
}
use mtp.Link.Outbound.{guard_t7}
use mtp.Link.Traffic.{end_outage, end_busy, report}
use mtp.Link.Inbound.{monitor, proving_error, handle_corrupted_su}
use mtp.Link.Time.{step_timer, tick_t7, tick_t6, tick_t1, tick_t4, tick_t3, tick}
use mtp.Retransmission.Rx.{RxOutcome}

-- Both sides are the same.
abbrev pub Same : Mtp2Link → Mtp2Link → Type 0
Same l l' = (l'.tx ≡ l.tx) × (l'.rx ≡ l.rx)

tick_t6-Same : (l : Mtp2Link) → Same l (tick_t6 l)
unfolding tick_t6 tick_t7 emit stop_all_timers fail_out_of_service
tick_t6-Same l = ground arith

tick_t1-Same : (l : Mtp2Link) → Same l (tick_t1 l)
unfolding tick_t1 emit stop_all_timers fail_alignment
tick_t1-Same l = ground (arith, tick_t6-Same (record l { t1 = (step_timer l.t1).0 }))

tick_t4-Same : (l : Mtp2Link) → Same l (tick_t4 l)
unfolding tick_t4 proving_succeeded
tick_t4-Same l = ground (arith, tick_t1-Same (record l { t4 = (step_timer l.t4).0 }))

tick_t3-Same : (l : Mtp2Link) → Same l (tick_t3 l)
unfolding tick_t3 emit stop_all_timers fail_alignment
tick_t3-Same l = ground (arith, tick_t4-Same (record l { t3 = (step_timer l.t3).0 }))

pub tick-Same : (l : Mtp2Link) → Same l (tick l)
unfolding tick emit stop_all_timers fail_alignment
tick-Same l = ground (arith, tick_t3-Same (record l { t2 = (step_timer l.t2).0 }))

pub handle_lssu-Same : (i : StatusIndication) (l : Mtp2Link) → Same l (handle_lssu i l)
unfolding handle_lssu lssu_at upgrade from_not_aligned from_aligned from_proving from_aligned_ready
    from_aligned_not_ready from_traffic enter_proving enter_in_service fail_alignment
    fail_out_of_service emit stop_all_timers
handle_lssu-Same i l = ground arith

pub corrupted-Same : (l : Mtp2Link) → Same l (handle_corrupted_su l)
unfolding handle_corrupted_su proving_error proving_aborted monitor fail_alignment
    fail_out_of_service emit stop_all_timers
corrupted-Same l = ground arith

pub monitor-Same : (e : Bool) (l : Mtp2Link) → Same l (monitor e l).0
unfolding monitor
monitor-Same e l = ground arith

pub end_outage-Same : (l : Mtp2Link) → Same l (end_outage l)
unfolding end_outage emit
end_outage-Same l = ground arith

pub end_busy-Same : (l : Mtp2Link) → Same l (end_busy l)
unfolding end_busy emit
end_busy-Same l = ground arith

pub report-Same : (o : RxOutcome) (l : Mtp2Link) → Same l (report o l)
unfolding report emit
report-Same o l = ground arith

pub poll_event-Same : (l : Mtp2Link) → Same l (poll_event l).0
unfolding poll_event
poll_event-Same l = ground arith

pub outage-Same : (l : Mtp2Link) → Same l (Manage.local_processor_outage l)
unfolding Manage.local_processor_outage outage_at
outage-Same l = ground arith

pub recovered-Same : (l : Mtp2Link) → Same l (Manage.local_processor_recovered l)
unfolding Manage.local_processor_recovered recovered_at
recovered-Same l = ground arith

pub guard_t7-Same : (l : Mtp2Link) → Same l (guard_t7 l)
unfolding guard_t7
guard_t7-Same l = ground arith
