-- ===== src/Link/Invariant/Engine.antt =====
-- src/link.rs: the helpers that change the state keep the invariant of a link.
use mtp.Base.{◌≡◌, arith}
use mtp.Monitor.Suerm.{reset}
use mtp.Link.Types.{Mtp2State, OutOfServiceReason, AlignmentFailure, Event}
use mtp.Link.Config.{Mtp2Config}
use mtp.Link.Engine.{
  Mtp2Link, new, emit, stop_all_timers, enter_proving, proving_succeeded, proving_aborted,
  enter_in_service, fail_alignment, fail_out_of_service,
}
use mtp.Link.Invariant.{Inv}

pub new-Inv : (c : Mtp2Config) → Inv (new c)
unfolding new
new-Inv c = ground arith

pub emit-Inv : (e : Event) (l : Mtp2Link) → Inv l → Inv (emit e l)
unfolding emit
emit-Inv e l v = ground arith

pub fail_alignment-Inv : (f : AlignmentFailure) (l : Mtp2Link) → Inv (fail_alignment f l)
unfolding fail_alignment emit stop_all_timers
fail_alignment-Inv f l = ground arith

pub fail_out_of_service-Inv :
    (r : OutOfServiceReason) (l : Mtp2Link) → Inv (fail_out_of_service r l)
unfolding fail_out_of_service emit stop_all_timers
fail_out_of_service-Inv r l = ground arith

pub proving_succeeded-Inv :
    (l : Mtp2Link) → l.state ≡ Mtp2State.proving → Inv l → Inv (proving_succeeded l)
unfolding proving_succeeded
proving_succeeded-Inv l h v = ground arith

pub proving_aborted-Inv :
    (l : Mtp2Link) → l.state ≡ Mtp2State.proving → Inv l → Inv (proving_aborted l)
unfolding proving_aborted
proving_aborted-Inv l h v = ground (arith, fail_alignment-Inv AlignmentFailure.aerm_tripped l)

pub enter_in_service-Inv :
    (l : Mtp2Link) → l.state ≡ Mtp2State.aligned_ready → Inv l → Inv (enter_in_service l)
unfolding enter_in_service emit reset
enter_in_service-Inv l h v = ground arith

pub enter_proving-Inv : (l : Mtp2Link) → l.state ≡ Mtp2State.proving → Inv l → Inv (enter_proving l)
unfolding enter_proving
enter_proving-Inv l h v = ground arith
