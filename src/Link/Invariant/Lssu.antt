-- ===== src/Link/Invariant/Lssu.antt =====
-- src/link.rs: a received status indication keeps the invariant of a link.
use mtp.Base.{◌≡◌, refl, arith, true}
use mtp.SignalUnit.Status.{StatusIndication}
use mtp.Monitor.Suerm.{reset}
use mtp.Link.Types.{Mtp2State, OutOfServiceReason, AlignmentFailure}
use mtp.Link.Engine.{Mtp2Link, emit, enter_proving, enter_in_service}
use mtp.Link.Lssu.{
  carries_traffic, upgrade, from_not_aligned, from_aligned, from_proving, from_aligned_ready,
  from_aligned_not_ready, from_traffic, lssu_at, handle_lssu,
}
use mtp.Link.Invariant.{Inv}
use mtp.Link.Invariant.Engine.{fail_alignment-Inv, fail_out_of_service-Inv}

pub upgrade-Inv : (s : StatusIndication) (l : Mtp2Link) → Inv l → Inv (upgrade s l)
unfolding upgrade
upgrade-Inv s l v = ground arith

module _ (l : Mtp2Link) (v : Inv l) where
  from_not_aligned-Inv :
      (s : StatusIndication) → l.state ≡ Mtp2State.not_aligned → Inv (from_not_aligned s l)
  unfolding from_not_aligned
  from_not_aligned-Inv s h = ground arith

  from_aligned-Inv : (s : StatusIndication) → l.state ≡ Mtp2State.aligned → Inv (from_aligned s l)
  unfolding from_aligned enter_proving
  from_aligned-Inv s h = ground (arith, fail_alignment-Inv AlignmentFailure.received_sios l)

  from_proving-Inv : (s : StatusIndication) → l.state ≡ Mtp2State.proving → Inv (from_proving s l)
  unfolding from_proving enter_proving
  from_proving-Inv s h = ground (arith, fail_alignment-Inv AlignmentFailure.received_sios l)

  from_aligned_ready-Inv :
      (s : StatusIndication) → l.state ≡ Mtp2State.aligned_ready → Inv (from_aligned_ready s l)
  unfolding from_aligned_ready enter_in_service emit reset
  from_aligned_ready-Inv s h = ground (arith, fail_alignment-Inv AlignmentFailure.received_sios l)

  from_aligned_not_ready-Inv :
      (s : StatusIndication)
      → l.state ≡ Mtp2State.aligned_not_ready
      → Inv (from_aligned_not_ready s l)
  unfolding from_aligned_not_ready
  from_aligned_not_ready-Inv s h =
      ground (arith, fail_alignment-Inv AlignmentFailure.received_sios l)

  from_traffic-Inv :
      (s : StatusIndication) → carries_traffic l.state ≡ true → Inv (from_traffic s l)
  unfolding from_traffic emit
  from_traffic-Inv s h = ground (
    arith,
    fail_out_of_service-Inv OutOfServiceReason.received_sios l,
    fail_out_of_service-Inv OutOfServiceReason.alignment_lost l,
  )

  lssu_at-Inv : (st : Mtp2State) (s : StatusIndication) → l.state ≡ st → Inv (lssu_at st s l)
  unfolding lssu_at
  lssu_at-Inv Mtp2State.out_of_service s h = v
  lssu_at-Inv Mtp2State.not_aligned s h = from_not_aligned-Inv s h
  lssu_at-Inv Mtp2State.aligned s h = from_aligned-Inv s h
  lssu_at-Inv Mtp2State.proving s h = from_proving-Inv s h
  lssu_at-Inv Mtp2State.aligned_ready s h = from_aligned_ready-Inv s h
  lssu_at-Inv Mtp2State.aligned_not_ready s h = from_aligned_not_ready-Inv s h
  lssu_at-Inv Mtp2State.in_service s h = from_traffic-Inv s (rw h)
  lssu_at-Inv Mtp2State.processor_outage s h = from_traffic-Inv s (rw h)

pub handle_lssu-Inv : (s : StatusIndication) (l : Mtp2Link) → Inv l → Inv (handle_lssu s l)
unfolding handle_lssu
handle_lssu-Inv s l v = lssu_at-Inv (upgrade s l) (upgrade-Inv s l v) (upgrade s l).state s refl
