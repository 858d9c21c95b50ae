-- ===== src/Link/Reports/Lssu.antt =====
-- src/link.rs: the events of a received status indication.
use mtp.Base.{true, false, ◌≡◌, ◌≢◌, refl, arith}
use mtp.SignalUnit.Status.{StatusIndication}
use mtp.Link.Types.{Event, Mtp2State, AlignmentFailure, OutOfServiceReason}
use mtp.Link.Engine.{Mtp2Link, emit, enter_in_service, enter_proving}
use mtp.Link.Lssu.{
  carries_traffic, handle_lssu, lssu_at, upgrade, from_not_aligned, from_aligned, from_proving,
  from_aligned_ready, from_aligned_not_ready, from_traffic,
}
use mtp.Link.Invariant.{Inv}
use mtp.Link.Invariant.Lssu.{upgrade-Inv}
use mtp.Link.Reports.{View}
use mtp.Link.Reports.Told.{
  Told, emitted, fail_alignment-Told, fail_out_of_service-Told, enter_in_service-Told,
}

module _ (v : View) (l : Mtp2Link) (inv : Inv l) (h : Told v l) where
  upgrade-Told : (i : StatusIndication) → Told v (upgrade i l)
  unfolding upgrade
  upgrade-Told i = ground arith

  from_traffic-Told :
      (i : StatusIndication) → carries_traffic l.state ≡ true → Told v (from_traffic i l)
  unfolding from_traffic emit
  from_traffic-Told StatusIndication.processor_outage s =
      ground (arith, emitted v l Event.remote_processor_outage)
  from_traffic-Told StatusIndication.busy s = ground (arith, emitted v l Event.remote_busy)
  from_traffic-Told StatusIndication.out_of_service s =
      fail_out_of_service-Told v OutOfServiceReason.received_sios l
  from_traffic-Told StatusIndication.out_of_alignment s =
      fail_out_of_service-Told v OutOfServiceReason.alignment_lost l
  from_traffic-Told StatusIndication.normal_alignment s =
      fail_out_of_service-Told v OutOfServiceReason.alignment_lost l
  from_traffic-Told StatusIndication.emergency_alignment s =
      fail_out_of_service-Told v OutOfServiceReason.alignment_lost l

  from_aligned_ready-Told :
      (i : StatusIndication) → l.state ≡ Mtp2State.aligned_ready → Told v (from_aligned_ready i l)
  unfolding from_aligned_ready emit enter_in_service
  from_aligned_ready-Told i s = ground (
    arith,
    fail_alignment-Told v AlignmentFailure.received_sios l,
    enter_in_service-Told v l inv s h,
    emitted v (enter_in_service l) Event.remote_processor_outage,
  )

  aligning-Told :
      (st : Mtp2State) (i : StatusIndication)
      → l.state ≡ st
      → carries_traffic st ≡ false
      → st ≢ Mtp2State.aligned_ready
      → Told v (lssu_at st i l)
  unfolding lssu_at from_not_aligned from_aligned from_proving from_aligned_not_ready enter_proving
  aligning-Told st i e s s' = ground (arith, fail_alignment-Told v AlignmentFailure.received_sios l)

  lssu_at-Told : (st : Mtp2State) (i : StatusIndication) → l.state ≡ st → Told v (lssu_at st i l)
  unfolding lssu_at
  lssu_at-Told Mtp2State.in_service i e = from_traffic-Told i (rw e)
  lssu_at-Told Mtp2State.processor_outage i e = from_traffic-Told i (rw e)
  lssu_at-Told Mtp2State.aligned_ready i e = from_aligned_ready-Told i e
  lssu_at-Told Mtp2State.out_of_service i e = h
  lssu_at-Told Mtp2State.not_aligned i e =
      aligning-Told Mtp2State.not_aligned i e refl (ground arith)
  lssu_at-Told Mtp2State.aligned i e = aligning-Told Mtp2State.aligned i e refl (ground arith)
  lssu_at-Told Mtp2State.proving i e = aligning-Told Mtp2State.proving i e refl (ground arith)
  lssu_at-Told Mtp2State.aligned_not_ready i e =
      aligning-Told Mtp2State.aligned_not_ready i e refl (ground arith)

pub handle_lssu-Told :
    (v : View) (i : StatusIndication) (l : Mtp2Link) → Inv l → Told v l → Told v (handle_lssu i l)
unfolding handle_lssu
handle_lssu-Told v i l inv h =
    lssu_at-Told v (upgrade i l) (upgrade-Inv i l inv) (upgrade-Told v l inv h i)
      (upgrade i l).state i refl
