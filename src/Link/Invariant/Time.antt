-- ===== src/Link/Invariant/Time.antt =====
-- src/link.rs: a tick keeps the invariant of a link.
use mtp.Base.{false, true, Bool-cases, ◌≡◌, ◌&&◌, inl, inr, arith}
use mtp.Link.Types.{Mtp2State, OutOfServiceReason, AlignmentFailure}
use mtp.Link.Engine.{Mtp2Link, proving_succeeded}
use mtp.Link.Lssu.{carries_traffic}
use mtp.Link.Time.{step_timer, is_state, tick_t7, tick_t6, tick_t1, tick_t4, tick_t3, tick}
use mtp.Link.Invariant.{Inv}
use mtp.Link.Invariant.Engine.{fail_alignment-Inv, fail_out_of_service-Inv}

-- A timer that steps and does not expire in its state keeps the invariant.
module _ (l : Mtp2Link) (v : Inv l) where
  step_t6-Inv :
      ((step_timer l.t6).1 && carries_traffic l.state) ≡ false
      → Inv (record l { t6 = (step_timer l.t6).0 })
  unfolding step_timer
  step_t6-Inv e = ground arith

  step_t1-Inv :
      ((step_timer l.t1).1 && is_state Mtp2State.aligned_ready l.state) ≡ false
      → Inv (record l { t1 = (step_timer l.t1).0 })
  unfolding step_timer
  step_t1-Inv e = ground arith

  step_t4-Inv :
      ((step_timer l.t4).1 && is_state Mtp2State.proving l.state) ≡ false
      → Inv (record l { t4 = (step_timer l.t4).0 })
  unfolding step_timer
  step_t4-Inv e = ground arith

  step_t3-Inv :
      ((step_timer l.t3).1 && is_state Mtp2State.aligned l.state) ≡ false
      → Inv (record l { t3 = (step_timer l.t3).0 })
  unfolding step_timer
  step_t3-Inv e = ground arith

  step_t2-Inv :
      ((step_timer l.t2).1 && is_state Mtp2State.not_aligned l.state) ≡ false
      → Inv (record l { t2 = (step_timer l.t2).0 })
  unfolding step_timer
  step_t2-Inv e = ground arith

-- Proving ends when T4 does.
succeeded-Inv :
    (l : Mtp2Link)
    → Inv l
    → is_state Mtp2State.proving l.state ≡ true
    → Inv (proving_succeeded (record l { t4 = (step_timer l.t4).0 }))
unfolding proving_succeeded
succeeded-Inv l v h = ground arith

tick_t7-Inv : (l : Mtp2Link) → Inv l → Inv (tick_t7 l)
unfolding tick_t7 step_timer
tick_t7-Inv l v =
    let l' = record l { t7 = (step_timer l.t7).0 } in
    ground (arith, fail_out_of_service-Inv OutOfServiceReason.t7_expired l')

tick_t6-Inv : (l : Mtp2Link) → Inv l → Inv (tick_t6 l)
unfolding tick_t6
tick_t6-Inv l v =
    let l' = record l { t6 = (step_timer l.t6).0 } in
    elim (Bool-cases ((step_timer l.t6).1 && carries_traffic l.state)) [
      | inl e ↦ rw e (fail_out_of_service-Inv OutOfServiceReason.t6_expired l')
      | inr e ↦ rw e (tick_t7-Inv l' (step_t6-Inv l v e))
    ]

tick_t1-Inv : (l : Mtp2Link) → Inv l → Inv (tick_t1 l)
unfolding tick_t1
tick_t1-Inv l v =
    let l' = record l { t1 = (step_timer l.t1).0 } in
    elim (Bool-cases ((step_timer l.t1).1 && is_state Mtp2State.aligned_ready l.state)) [
      | inl e ↦ rw e (fail_alignment-Inv AlignmentFailure.t1_expired l')
      | inr e ↦ rw e (tick_t6-Inv l' (step_t1-Inv l v e))
    ]

tick_t4-Inv : (l : Mtp2Link) → Inv l → Inv (tick_t4 l)
unfolding tick_t4
tick_t4-Inv l v =
    let l' = record l { t4 = (step_timer l.t4).0 } in
    elim (Bool-cases ((step_timer l.t4).1 && is_state Mtp2State.proving l.state)) [
      | inl e ↦ rw e (succeeded-Inv l v (ground arith))
      | inr e ↦ rw e (tick_t1-Inv l' (step_t4-Inv l v e))
    ]

tick_t3-Inv : (l : Mtp2Link) → Inv l → Inv (tick_t3 l)
unfolding tick_t3
tick_t3-Inv l v =
    let l' = record l { t3 = (step_timer l.t3).0 } in
    elim (Bool-cases ((step_timer l.t3).1 && is_state Mtp2State.aligned l.state)) [
      | inl e ↦ rw e (fail_alignment-Inv AlignmentFailure.t3_expired l')
      | inr e ↦ rw e (tick_t4-Inv l' (step_t3-Inv l v e))
    ]

pub tick-Inv : (l : Mtp2Link) → Inv l → Inv (tick l)
unfolding tick
tick-Inv l v =
    let l' = record l { t2 = (step_timer l.t2).0 } in
    elim (Bool-cases ((step_timer l.t2).1 && is_state Mtp2State.not_aligned l.state)) [
      | inl e ↦ rw e (fail_alignment-Inv AlignmentFailure.t2_expired l')
      | inr e ↦ rw e (tick_t3-Inv l' (step_t2-Inv l v e))
    ]
