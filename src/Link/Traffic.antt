-- ===== src/Link/Traffic.antt =====
-- src/link.rs: received FISUs and MSUs.
use mtp.Base.{ℕ, false, Option, none, some, List, ◌==◌, if◌then◌else◌}
use mtp.SignalUnit.Header.{SuHeader}
use mtp.Retransmission.Tx.{unacked_len}
use mtp.Retransmission.Tx
use mtp.Retransmission.Rx.{RxOutcome, accepted, discarded, retransmission_requested}
use mtp.Retransmission.Rx
use mtp.Link.Types.{Mtp2State, Event}
use mtp.Link.Engine.{Mtp2Link, emit, enter_in_service}

-- The acknowledgement of a received unit, and the restart of T7.
unfoldable pub acknowledged : SuHeader → Mtp2Link → Mtp2Link
acknowledged h l =
    let tx = Tx.on_ack h.bsn h.bib l.tx in
    record l {
      tx = tx;
      t7 = if unacked_len tx == 0 then none else some l.config.t7_excessive_delay;
    }

-- A FISU or an MSU ends the peer's outage and congestion.
unfoldable pub end_outage : Mtp2Link → Mtp2Link
end_outage l =
    if l.remote_processor_outage
    then emit Event.remote_processor_recovered (record l { remote_processor_outage = false })
    else l

unfoldable pub end_busy : Mtp2Link → Mtp2Link
end_busy l =
    if l.remote_busy
    then emit Event.remote_busy_ended (record l { remote_busy = false; t6 = none })
    else l

unfoldable pub report : RxOutcome → Mtp2Link → Mtp2Link
report (accepted sio sif) l = emit (Event.msu sio sif) l
report retransmission_requested l = emit Event.retransmission_requested l
report discarded l = l

-- The sequence check of an MSU.
unfoldable pub sequence_check : ℕ → ℕ → List ℕ → Mtp2Link → Mtp2Link
sequence_check fsn sio sif l =
    let (rx, outcome) = Rx.on_msu fsn sio sif l.rx in report outcome (record l { rx = rx })

-- During a processor outage the payload is dropped.
unfoldable pub deliver : SuHeader → Option (ℕ × List ℕ) → Mtp2Link → Mtp2Link
deliver h none l = l
deliver h (some (sio, sif)) l = elim l.state [
  | Mtp2State.processor_outage ↦ l
  | _ ↦ sequence_check h.fsn sio sif l
]

-- `Mtp2Link::process_in_service_su`.
unfoldable pub process_in_service_su : SuHeader → Option (ℕ × List ℕ) → Mtp2Link → Mtp2Link
process_in_service_su h payload l = deliver h payload (end_busy (end_outage (acknowledged h l)))

unfoldable pub fisu_or_msu_at : Mtp2State → SuHeader → Option (ℕ × List ℕ) → Mtp2Link → Mtp2Link
fisu_or_msu_at Mtp2State.aligned_ready h payload l =
    process_in_service_su h payload (enter_in_service l)
fisu_or_msu_at Mtp2State.in_service h payload l = process_in_service_su h payload l
fisu_or_msu_at Mtp2State.processor_outage h payload l = process_in_service_su h payload l
fisu_or_msu_at _ h payload l = l

-- `Mtp2Link::handle_fisu_or_msu`.
unfoldable pub handle_fisu_or_msu : SuHeader → Option (ℕ × List ℕ) → Mtp2Link → Mtp2Link
handle_fisu_or_msu h payload l = fisu_or_msu_at l.state h payload l
