-- ===== src/Link/Diagram/States.antt =====
-- src/link.rs: the state of a link after each handler.
use mtp.Base.{◌≡◌, ◌∙◌, refl, none, some, arith, Bool, true, false, ◌⊎◌, ℕ, List, Option}
use mtp.SignalUnit.Status.{StatusIndication}
use mtp.SignalUnit.Header.{SuHeader}
use mtp.SignalUnit.Unit.{SignalUnit}
use mtp.Link.Types.{Mtp2State}
use mtp.Link.Engine.{
  Mtp2Link, emit, stop_all_timers, enter_proving, enter_in_service, fail_alignment,
  fail_out_of_service, proving_succeeded, proving_aborted,
}
use mtp.Link.Outbound.{choose, in_service_su, transmit_frame, guard_t7, finish, poll_transmit}
use mtp.Link.Lssu.{
  upgrade, from_not_aligned, from_aligned, from_proving, from_aligned_ready, from_aligned_not_ready,
  from_traffic, lssu_at, handle_lssu,
}
use mtp.Retransmission.Rx.{RxOutcome}
use mtp.Retransmission.Rx
use mtp.Link.Traffic.{
  acknowledged, end_outage, end_busy, report, sequence_check, deliver, process_in_service_su,
  fisu_or_msu_at, handle_fisu_or_msu,
}
use mtp.Link.Inbound.{dispatch, monitor, handle_su, proving_error, handle_corrupted_su}
use mtp.Link.Time.{tick, tick_t3, tick_t4, tick_t1, tick_t6, tick_t7, step_timer}
use mtp.Link.Diagram.{is_alignment, is_proving}

-- Each timer in turn.
tick_t6-state :
    (l : Mtp2Link) → ((tick_t6 l).state ≡ l.state) ⊎ ((tick_t6 l).state ≡ Mtp2State.out_of_service)
unfolding tick_t6 tick_t7 emit stop_all_timers fail_out_of_service
tick_t6-state l = ground arith

tick_t1-state :
    (l : Mtp2Link) → ((tick_t1 l).state ≡ l.state) ⊎ ((tick_t1 l).state ≡ Mtp2State.out_of_service)
unfolding tick_t1 emit stop_all_timers fail_alignment
tick_t1-state l = ground (arith, tick_t6-state (record l { t1 = (step_timer l.t1).0 }))

-- A tick keeps the state, takes the link out of service, or ends the proving.
abbrev pub Ticked : Mtp2State → Mtp2State → Type 0
Ticked s s' =
    (s' ≡ s)
    ⊎ ((s' ≡ Mtp2State.out_of_service)
        ⊎ (((s ≡ Mtp2State.proving) × (s' ≡ Mtp2State.aligned_ready))
            ⊎ ((s ≡ Mtp2State.proving) × (s' ≡ Mtp2State.aligned_not_ready))))

tick_t4-state : (l : Mtp2Link) → Ticked l.state (tick_t4 l).state
unfolding tick_t4 proving_succeeded
tick_t4-state l = ground (arith, tick_t1-state (record l { t4 = (step_timer l.t4).0 }))

tick_t3-state : (l : Mtp2Link) → Ticked l.state (tick_t3 l).state
unfolding tick_t3 emit stop_all_timers fail_alignment
tick_t3-state l = ground (arith, tick_t4-state (record l { t3 = (step_timer l.t3).0 }))

pub tick-state : (l : Mtp2Link) → Ticked l.state (tick l).state
unfolding tick emit stop_all_timers fail_alignment
tick-state l = ground (arith, tick_t3-state (record l { t2 = (step_timer l.t2).0 }))

pub poll_transmit-state : (l : Mtp2Link) → (poll_transmit l).0.state ≡ l.state
unfolding poll_transmit finish choose in_service_su transmit_frame guard_t7
poll_transmit-state l = ground arith

pub corrupted-state :
    (l : Mtp2Link)
    → ((handle_corrupted_su l).state ≡ l.state)
      ⊎ (((handle_corrupted_su l).state ≡ Mtp2State.out_of_service)
          ⊎ ((l.state ≡ Mtp2State.proving) × ((handle_corrupted_su l).state ≡ Mtp2State.aligned)))
unfolding handle_corrupted_su proving_error proving_aborted monitor fail_alignment
    fail_out_of_service emit stop_all_timers
corrupted-state l = ground arith

pub end_outage-state : (l : Mtp2Link) → (end_outage l).state ≡ l.state
unfolding end_outage emit
end_outage-state l = ground arith

pub end_busy-state : (l : Mtp2Link) → (end_busy l).state ≡ l.state
unfolding end_busy emit
end_busy-state l = ground arith

report-state : (o : RxOutcome) (l : Mtp2Link) → (report o l).state ≡ l.state
unfolding report emit
report-state o l = ground arith

deliver-state :
    (h : SuHeader) (p : Option (ℕ × List ℕ)) (l : Mtp2Link) → (deliver h p l).state ≡ l.state
unfolding deliver sequence_check
deliver-state h none l = refl
deliver-state h (some (sio, sif)) l =
    let (rx, outcome) = Rx.on_msu h.fsn sio sif l.rx in
    ground (arith, report-state outcome (record l { rx = rx }))

pub traffic-state :
    (h : SuHeader) (p : Option (ℕ × List ℕ)) (l : Mtp2Link)
    → (process_in_service_su h p l).state ≡ l.state
unfolding process_in_service_su
traffic-state h p l =
    let l' = acknowledged h l in
    let same : l'.state ≡ l.state = unfold acknowledged in refl in
    deliver-state h p (end_busy (end_outage l'))
    ∙ end_busy-state (end_outage l')
    ∙ end_outage-state l'
    ∙ same

-- A FISU or an MSU puts a link that is ready into service.
abbrev pub Served : Mtp2State → Mtp2State → Type 0
Served s s' = (s' ≡ s) ⊎ ((s ≡ Mtp2State.aligned_ready) × (s' ≡ Mtp2State.in_service))

pub fisu_or_msu-state :
    (h : SuHeader) (p : Option (ℕ × List ℕ)) (l : Mtp2Link)
    → Served l.state (handle_fisu_or_msu h p l).state
unfolding handle_fisu_or_msu fisu_or_msu_at enter_in_service emit
fisu_or_msu-state h p l =
    ground (arith, traffic-state h p l, traffic-state h p (enter_in_service l))

-- What a status indication does to the state.
abbrev pub Heard : StatusIndication → Mtp2State → Mtp2State → Type 0
Heard i s s' =
    (s' ≡ s)
    ⊎ ((s' ≡ Mtp2State.out_of_service)
        ⊎ (((s ≡ Mtp2State.not_aligned) × (s' ≡ Mtp2State.aligned) × (is_alignment i ≡ true))
            ⊎ (((s ≡ Mtp2State.aligned) × (s' ≡ Mtp2State.proving) × (is_proving i ≡ true))
                ⊎ (((s ≡ Mtp2State.proving)
                      × (s' ≡ Mtp2State.aligned)
                      × (i ≡ StatusIndication.out_of_alignment))
                    ⊎ ((s ≡ Mtp2State.aligned_ready)
                        × (s' ≡ Mtp2State.in_service)
                        × (i ≡ StatusIndication.processor_outage))))))

pub lssu-state : (i : StatusIndication) (l : Mtp2Link) → Heard i l.state (handle_lssu i l).state
unfolding handle_lssu lssu_at upgrade from_not_aligned from_aligned from_proving from_aligned_ready
    from_aligned_not_ready from_traffic enter_proving enter_in_service fail_alignment
    fail_out_of_service emit stop_all_timers
lssu-state i l = ground arith

pub monitor-state : (e : Bool) (l : Mtp2Link) → (monitor e l).0.state ≡ l.state
unfolding monitor
monitor-state e l = ground arith

-- The SUERM takes the link out of service, or the unit is dispatched.
pub handle_su-state :
    (su : SignalUnit) (l : Mtp2Link)
    → ((handle_su su l).state ≡ Mtp2State.out_of_service)
      ⊎ ((handle_su su l).state ≡ (dispatch su (monitor false l).0).state)
unfolding handle_su fail_out_of_service emit stop_all_timers
handle_su-state su l = ground arith
