-- ===== src/Link/Tests.antt =====
-- src/link.rs: runs of a link.
use mtp.Base.{◌≡◌, refl, arith, some, true, false, List, [], ◌∷◌, ◌++◌}
use mtp.SignalUnit.Header.{SuHeader}
use mtp.SignalUnit.Status.{StatusIndication}
use mtp.SignalUnit.Unit.{SignalUnit, fisu, lssu, msu}
use mtp.Link.Types.{Mtp2State, Event}
use mtp.Link.Config.{Mtp2Config, default}
use mtp.Monitor.Aerm.{restart}
use mtp.Monitor.Aerm
use mtp.Monitor.Suerm.{reset, record_su}
use mtp.Monitor.Suerm
use mtp.Retransmission.Seq.{seq_forward, seq_add}
use mtp.Retransmission.Tx.{
  poll, poll_by, poll_basic, basic_from, basic_fresh, send_new, submit, on_ack, acknowledge, free,
  nack,
}
use mtp.Retransmission.Tx
use mtp.Retransmission.Rx.{on_msu}
use mtp.Retransmission.Rx
use mtp.Link.Engine.{
  new, stop_all_timers, emit, poll_event, enter_proving, proving_succeeded, enter_in_service,
}
use mtp.SignalUnit.Build
use mtp.SignalUnit.Codec.{encode, decode}
use mtp.Error.{ok, ◌>>=◌}
use mtp.Link.Outbound.{
  poll_transmit, choose, finish, in_service_su, transmit_frame, frame_su, or_fisu, guard_t7,
}
use mtp.Link.Wire.Sent.{poll_transmit-decode}
use mtp.Link.Manage.{begin}
use mtp.Link.Manage
use mtp.Link.Lssu.{handle_lssu, lssu_at, upgrade, from_not_aligned, from_aligned, from_traffic}
use mtp.Link.Traffic.{
  handle_fisu_or_msu, fisu_or_msu_at, process_in_service_su, acknowledged, end_outage, end_busy,
  deliver, sequence_check, report,
}
use mtp.Link.Inbound.{handle_su, monitor, dispatch}
use mtp.Link.Time.{tick, tick_t3, tick_t4, tick_t1, tick_t6, tick_t7, step_timer}
use mtp.Link.Invariant.{Inv}
use mtp.Link.Run.{Call, step, run, run-Inv}
use mtp.Link.Diagram.{Move}
use mtp.Link.Diagram.Moves.{step-Move}
use mtp.Link.Reports.{hear_all, handed_out, down, view}
use mtp.Link.Reports.Run.{handed_out-view}

-- Proving of two ticks.
abbrev pub quick : Mtp2Config
quick = record default { t4_proving_normal = 2; t4_proving_emergency = 2 }

abbrev pub idle : SuHeader
idle = record { bsn = 127; bib = true; fsn = 127; fib = true }

abbrev peer : StatusIndication → Call
peer s = Call.handle_su (lssu idle s false)

-- The alignment of a link, an MSU that arrives, and the peer's congestion.
abbrev alignment : List Call
alignment =
    Call.start
    ∷ peer StatusIndication.out_of_alignment
    ∷ peer StatusIndication.normal_alignment
    ∷ Call.tick
    ∷ Call.tick
    ∷ Call.handle_su (fisu idle)
    ∷ []

abbrev traffic : List Call
traffic =
    alignment
    ++ (Call.poll_event
        ∷ Call.handle_su (msu (record idle { fsn = 0 }) 5 (1 ∷ 2 ∷ []))
        ∷ peer StatusIndication.busy
        ∷ [])

run-Inv_example : Inv (run traffic (new quick))
run-Inv_example = run-Inv quick traffic

step-Move_example :
    Move
      (peer StatusIndication.normal_alignment)
      (run alignment (new quick)).state
      (step (peer StatusIndication.normal_alignment) (run alignment (new quick))).state
step-Move_example = step-Move (peer StatusIndication.normal_alignment) (run alignment (new quick))

handed_out-view_example :
    hear_all (handed_out traffic (new quick) ++ (run traffic (new quick)).events) down
    ≡ view (run traffic (new quick))
handed_out-view_example = handed_out-view quick traffic

in_service : (run alignment (new quick)).state ≡ Mtp2State.in_service
unfolding run step new Manage.start begin stop_all_timers emit poll_event enter_proving
    proving_succeeded enter_in_service handle_su monitor dispatch handle_lssu lssu_at upgrade
    from_not_aligned from_aligned from_traffic handle_fisu_or_msu fisu_or_msu_at
    process_in_service_su acknowledged end_outage end_busy deliver sequence_check report on_ack
    acknowledge free nack on_msu seq_forward Tx.new Rx.new Suerm.new Aerm.new restart reset
    record_su tick tick_t3 tick_t4 tick_t1 tick_t6 tick_t7 step_timer
in_service = refl

waiting : (run traffic (new quick)).events ≡ Event.msu 5 (1 ∷ 2 ∷ []) ∷ Event.remote_busy ∷ []
unfolding run step new Manage.start begin stop_all_timers emit poll_event enter_proving
    proving_succeeded enter_in_service handle_su monitor dispatch handle_lssu lssu_at upgrade
    from_not_aligned from_aligned from_traffic handle_fisu_or_msu fisu_or_msu_at
    process_in_service_su acknowledged end_outage end_busy deliver sequence_check report on_ack
    acknowledge free nack on_msu seq_forward Tx.new Rx.new Suerm.new Aerm.new restart reset
    record_su tick tick_t3 tick_t4 tick_t1 tick_t6 tick_t7 step_timer
waiting = refl

abbrev pub outgoing : List Call
outgoing = alignment ++ (Call.submit_msu 5 (1 ∷ 2 ∷ []) ∷ [])

-- The MSU that was submitted.
abbrev pub outgoing_su : SignalUnit
outgoing_su = msu (record idle { fsn = 0 }) 5 (1 ∷ 2 ∷ [])

pub sends : (poll_transmit (run outgoing (new quick))).1 ≡ some outgoing_su
unfolding run poll_transmit choose finish in_service_su transmit_frame frame_su or_fisu guard_t7
    Build.msu poll poll_by poll_basic basic_from basic_fresh send_new seq_add submit
    Manage.submit_msu step new Manage.start begin stop_all_timers emit poll_event enter_proving
    proving_succeeded enter_in_service handle_su monitor dispatch handle_lssu lssu_at upgrade
    from_not_aligned from_aligned from_traffic handle_fisu_or_msu fisu_or_msu_at
    process_in_service_su acknowledged end_outage end_busy deliver sequence_check report on_ack
    acknowledge free nack on_msu seq_forward Tx.new Rx.new Suerm.new Aerm.new restart reset
    record_su tick tick_t3 tick_t4 tick_t1 tick_t6 tick_t7 step_timer
sends = refl

poll_transmit-decode_example : (encode outgoing_su >>= decode) ≡ ok outgoing_su
poll_transmit-decode_example = poll_transmit-decode quick outgoing outgoing_su (ground arith) sends
