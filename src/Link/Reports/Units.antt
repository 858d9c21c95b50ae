-- ===== src/Link/Reports/Units.antt =====
-- src/link.rs: the events of a received unit and of a tick.
use mtp.Base.{
  ℕ, Bool, true, false, List, Option, none, some, ◌≡◌, refl, ◌∙◌, ap, arith, inl, inr, Bool-cases,
}
use mtp.SignalUnit.Header.{SuHeader}
use mtp.SignalUnit.Unit.{SignalUnit, fisu, lssu, msu}
use mtp.Link.Types.{Event, Mtp2State, AlignmentFailure, OutOfServiceReason}
use mtp.Link.Engine.{Mtp2Link, emit, enter_in_service, proving_succeeded, proving_aborted}
use mtp.Link.Lssu.{carries_traffic}
use mtp.Link.Invariant.{Inv}
use mtp.Retransmission.Rx.{RxOutcome, accepted, retransmission_requested, discarded}
use mtp.Retransmission.Rx
use mtp.Link.Traffic.{
  acknowledged, end_outage, end_busy, report, sequence_check, deliver, process_in_service_su,
  fisu_or_msu_at, handle_fisu_or_msu,
}
use mtp.Link.Inbound.{dispatch, monitor, handle_su, proving_error, handle_corrupted_su}
use mtp.Link.Time.{tick, tick_t3, tick_t4, tick_t1, tick_t6, tick_t7, step_timer}
use mtp.Link.Invariant.Calls.{monitor-Inv, proving_error-state}
use mtp.Link.Reports.{View}
use mtp.Link.Reports.Told.{
  Told, emitted, fail_alignment-Told, fail_out_of_service-Told, enter_in_service-Told,
}
use mtp.Link.Diagram.States.{end_outage-state}
use mtp.Link.Reports.Lssu.{handle_lssu-Told}

acknowledged-Told : (v : View) (u : SuHeader) (l : Mtp2Link) → Told v l → Told v (acknowledged u l)
unfolding acknowledged
acknowledged-Told v u l h = h

end_outage-Told :
    (v : View) (l : Mtp2Link) → carries_traffic l.state ≡ true → Told v l → Told v (end_outage l)
unfolding end_outage emit
end_outage-Told v l s h = ground (arith, emitted v l Event.remote_processor_recovered)

end_busy-Told :
    (v : View) (l : Mtp2Link) → carries_traffic l.state ≡ true → Told v l → Told v (end_busy l)
unfolding end_busy emit
end_busy-Told v l s h = ground (arith, emitted v l Event.remote_busy_ended)

report-Told : (v : View) (o : RxOutcome) (l : Mtp2Link) → Told v l → Told v (report o l)
unfolding report emit
report-Told v (accepted sio sif) l h = emitted v l (Event.msu sio sif) ∙ h
report-Told v retransmission_requested l h = emitted v l Event.retransmission_requested ∙ h
report-Told v discarded l h = h

sequence_check-Told :
    (v : View) (fsn sio : ℕ) (sif : List ℕ) (l : Mtp2Link)
    → Told v l
    → Told v (sequence_check fsn sio sif l)
unfolding sequence_check
sequence_check-Told v fsn sio sif l h =
    let (rx, outcome) = Rx.on_msu fsn sio sif l.rx in report-Told v outcome (record l { rx = rx }) h

deliver-Told :
    (v : View) (u : SuHeader) (p : Option (ℕ × List ℕ)) (l : Mtp2Link)
    → Told v l
    → Told v (deliver u p l)
unfolding deliver
deliver-Told v u none l h = h
deliver-Told v u (some (sio, sif)) l h = ground (arith, sequence_check-Told v u.fsn sio sif l h)

process-Told :
    (v : View) (u : SuHeader) (p : Option (ℕ × List ℕ)) (l : Mtp2Link)
    → carries_traffic l.state ≡ true
    → Told v l
    → Told v (process_in_service_su u p l)
unfolding process_in_service_su
process-Told v u p l s h =
    let a = acknowledged u l in
    let s' : carries_traffic a.state ≡ true = unfold acknowledged in s in
    deliver-Told v u p (end_busy (end_outage a)) (
      end_busy-Told v (end_outage a) (ap carries_traffic (end_outage-state a) ∙ s')
        (end_outage-Told v a s' (acknowledged-Told v u l h)))

fisu_or_msu-Told :
    (v : View) (u : SuHeader) (p : Option (ℕ × List ℕ)) (l : Mtp2Link) (st : Mtp2State)
    → l.state ≡ st
    → Inv l
    → Told v l
    → Told v (fisu_or_msu_at st u p l)
unfolding fisu_or_msu_at
fisu_or_msu-Told v u p l Mtp2State.aligned_ready e inv h =
    process-Told v u p (enter_in_service l) (unfold enter_in_service emit in refl)
      (enter_in_service-Told v l inv e h)
fisu_or_msu-Told v u p l Mtp2State.in_service e inv h = process-Told v u p l (rw e) h
fisu_or_msu-Told v u p l Mtp2State.processor_outage e inv h = process-Told v u p l (rw e) h
fisu_or_msu-Told v u p l Mtp2State.out_of_service e inv h = h
fisu_or_msu-Told v u p l Mtp2State.not_aligned e inv h = h
fisu_or_msu-Told v u p l Mtp2State.aligned e inv h = h
fisu_or_msu-Told v u p l Mtp2State.proving e inv h = h
fisu_or_msu-Told v u p l Mtp2State.aligned_not_ready e inv h = h

dispatch-Told :
    (v : View) (su : SignalUnit) (l : Mtp2Link) → Inv l → Told v l → Told v (dispatch su l)
unfolding dispatch handle_fisu_or_msu
dispatch-Told v (fisu u) l inv h = fisu_or_msu-Told v u none l l.state refl inv h
dispatch-Told v (lssu _ i _) l inv h = handle_lssu-Told v i l inv h
dispatch-Told v (msu u sio sif) l inv h =
    fisu_or_msu-Told v u (some (sio, sif)) l l.state refl inv h

monitor-Told : (v : View) (e : Bool) (l : Mtp2Link) → Told v l → Told v (monitor e l).0
unfolding monitor
monitor-Told v e l h = ground arith

pub handle_su-Told :
    (v : View) (su : SignalUnit) (l : Mtp2Link) → Inv l → Told v l → Told v (handle_su su l)
unfolding handle_su
handle_su-Told v su l inv h = elim (Bool-cases (monitor false l).1) [
  | inl e ↦ rw e (fail_out_of_service-Told v OutOfServiceReason.suerm_failure (monitor false l).0)
  | inr e ↦ rw e (
      dispatch-Told v su (monitor false l).0 (monitor-Inv false l e inv) (monitor-Told v false l h))
]

proving_error-Told : (v : View) (l : Mtp2Link) → Told v l → Told v (proving_error l).0
unfolding proving_error
proving_error-Told v l h = ground arith

-- An abort while proving.
aborted-Told :
    (v : View) (l : Mtp2Link) → l.state ≡ Mtp2State.proving → Told v l → Told v (proving_aborted l)
unfolding proving_aborted
aborted-Told v l s h = ground (arith, fail_alignment-Told v AlignmentFailure.aerm_tripped l)

pub corrupted-Told : (v : View) (l : Mtp2Link) → Told v l → Told v (handle_corrupted_su l)
unfolding handle_corrupted_su
corrupted-Told v l h =
    let l' = (proving_error l).0 in
    elim (Bool-cases (proving_error l).1) [
      | inl e ↦ rw e (aborted-Told v l' (proving_error-state l e) (proving_error-Told v l h))
      | inr e ↦ rw e (elim (Bool-cases (monitor true l').1) [
        | inl f ↦
            rw f (fail_out_of_service-Told v OutOfServiceReason.suerm_failure (monitor true l').0)
        | inr f ↦ rw f (monitor-Told v true l' (proving_error-Told v l h))
      ])
    ]

tick_t6-Told : (v : View) (l : Mtp2Link) → Told v l → Told v (tick_t6 l)
unfolding tick_t6 tick_t7
tick_t6-Told v l h =
    let l6 = record l { t6 = (step_timer l.t6).0 } in
    ground (
      arith,
      fail_out_of_service-Told v OutOfServiceReason.t6_expired l6,
      fail_out_of_service-Told v OutOfServiceReason.t7_expired
          (record l6 { t7 = (step_timer l.t7).0 }),
    )

tick_t1-Told : (v : View) (l : Mtp2Link) → Told v l → Told v (tick_t1 l)
unfolding tick_t1
tick_t1-Told v l h =
    let l1 = record l { t1 = (step_timer l.t1).0 } in
    ground (arith, fail_alignment-Told v AlignmentFailure.t1_expired l1, tick_t6-Told v l1 h)

tick_t4-Told : (v : View) (l : Mtp2Link) → Told v l → Told v (tick_t4 l)
unfolding tick_t4 proving_succeeded
tick_t4-Told v l h = ground (arith, tick_t1-Told v (record l { t4 = (step_timer l.t4).0 }) h)

tick_t3-Told : (v : View) (l : Mtp2Link) → Told v l → Told v (tick_t3 l)
unfolding tick_t3
tick_t3-Told v l h =
    let l3 = record l { t3 = (step_timer l.t3).0 } in
    ground (arith, fail_alignment-Told v AlignmentFailure.t3_expired l3, tick_t4-Told v l3 h)

pub tick-Told : (v : View) (l : Mtp2Link) → Told v l → Told v (tick l)
unfolding tick
tick-Told v l h =
    let l2 = record l { t2 = (step_timer l.t2).0 } in
    ground (arith, fail_alignment-Told v AlignmentFailure.t2_expired l2, tick_t3-Told v l2 h)
