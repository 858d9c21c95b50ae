-- ===== src/Link/Wire/Received.antt =====
-- src/link.rs: what is received and submitted keeps the numbers and sizes of a link.
use mtp.Base.{
  ℕ, ◌≤◌, ◌<◌, sym, arith, false, List, Option, none, some, length, inl, inr, Bool-cases, subst,
}
use mtp.SignalUnit.Header.{SuHeader, seq_modulus}
use mtp.SignalUnit.Unit.{SignalUnit, fisu, lssu, msu}
use mtp.SignalUnit.Valid.{IsValid}
use mtp.Retransmission.Rx.{RxControl, on_msu, request}
use mtp.Retransmission.Rx
use mtp.Link.Config.{Mtp2Config}
use mtp.Link.Engine.{Mtp2Link, new, emit, stop_all_timers, enter_in_service, fail_out_of_service}
use mtp.Link.Manage.{begin, submit_msu}
use mtp.Link.Manage
use mtp.Link.Traffic.{
  acknowledged, end_outage, end_busy, deliver, sequence_check, report, process_in_service_su,
  fisu_or_msu_at, handle_fisu_or_msu,
}
use mtp.Link.Inbound.{dispatch, monitor, handle_su}
use mtp.Link.Run.{unless_refused}
use mtp.Link.Wire.{IsWireTx, IsWire}
use mtp.Link.Wire.Frames.{new-IsWireTx, submit-IsWireTx, on_ack-IsWireTx}
use mtp.Link.Wire.Kept.{
  Same, handle_lssu-Same, monitor-Same, end_outage-Same, end_busy-Same, report-Same,
}

pub same : (l l' : Mtp2Link) → Same l l' → IsWire l → IsWire l'
same l l' s w = record { tx = subst IsWireTx (sym s.0) w.tx; last = rw s.1 w.last }

pub new-IsWire : (c : Mtp2Config) → IsWire (new c)
unfolding new Rx.new
new-IsWire c = record { tx = new-IsWireTx c.method; last = omega arith }

pub start-IsWire : (l : Mtp2Link) → IsWire l → IsWire (Manage.start l)
unfolding Manage.start begin stop_all_timers Rx.new
start-IsWire l w = ground (arith, new-IsWireTx l.config.method)

pub submit-IsWire :
    (sio : ℕ) (sif : List ℕ) (l : Mtp2Link)
    → 2 ≤ length sif
    → IsWire l
    → IsWire (unless_refused l (submit_msu sio sif l))
unfolding submit_msu
submit-IsWire sio sif l two w = ground (arith, submit-IsWireTx sio sif l.tx)

on_msu-last :
    (fsn sio : ℕ) (sif : List ℕ) (r : RxControl)
    → fsn < seq_modulus
    → r.last_received < seq_modulus
    → (on_msu fsn sio sif r).0.last_received < seq_modulus
unfolding on_msu request
on_msu-last fsn sio sif r f h = ground arith

deliver-IsWire :
    (h : SuHeader) (p : Option (ℕ × List ℕ)) (l : Mtp2Link)
    → h.fsn < seq_modulus
    → IsWire l
    → IsWire (deliver h p l)
unfolding deliver sequence_check
deliver-IsWire h none l f w = w
deliver-IsWire h (some (sio, sif)) l f w =
    let (rx, outcome) = on_msu h.fsn sio sif l.rx in
    let l' = record l { rx = rx } in
    let w' : IsWire l' = record { tx = w.tx; last = on_msu-last h.fsn sio sif l.rx f w.last } in
    ground (arith, same l' (report outcome l') (report-Same outcome l') w')

process-IsWire :
    (h : SuHeader) (p : Option (ℕ × List ℕ)) (l : Mtp2Link)
    → h.fsn < seq_modulus
    → IsWire l
    → IsWire (process_in_service_su h p l)
unfolding process_in_service_su acknowledged
process-IsWire h p l f w =
    let l' = acknowledged h l in
    let w' : IsWire l' = record { tx = on_ack-IsWireTx h.bsn h.bib l.tx w.tx; last = w.last } in
    deliver-IsWire h p (end_busy (end_outage l')) f
      (same (end_outage l') _ (end_busy-Same (end_outage l')) (same l' _ (end_outage-Same l') w'))

fisu_or_msu-IsWire :
    (h : SuHeader) (p : Option (ℕ × List ℕ)) (l : Mtp2Link)
    → h.fsn < seq_modulus
    → IsWire l
    → IsWire (handle_fisu_or_msu h p l)
unfolding handle_fisu_or_msu fisu_or_msu_at enter_in_service emit
fisu_or_msu-IsWire h p l f w = ground (
  arith,
  process-IsWire h p l f w,
  process-IsWire h p (enter_in_service l) f (record { tx = w.tx; last = w.last }),
)

dispatch-IsWire : (su : SignalUnit) (l : Mtp2Link) → IsValid su → IsWire l → IsWire (dispatch su l)
unfolding dispatch
dispatch-IsWire (fisu h) l v w = fisu_or_msu-IsWire h none l v.1 w
dispatch-IsWire (lssu h i x) l v w = same l _ (handle_lssu-Same i l) w
dispatch-IsWire (msu h sio sif) l v w = fisu_or_msu-IsWire h (some (sio, sif)) l v.0.1 w

pub handle_su-IsWire :
    (su : SignalUnit) (l : Mtp2Link) → IsValid su → IsWire l → IsWire (handle_su su l)
unfolding handle_su
handle_su-IsWire su l v w =
    let l' = (monitor false l).0 in
    let w' = same l l' (monitor-Same false l) w in
    elim (Bool-cases (monitor false l).1) [
      | inl e ↦
          rw e (
            unfold fail_out_of_service emit stop_all_timers in
            record { tx = w'.tx; last = w'.last })
      | inr e ↦ rw e (dispatch-IsWire su l' v w')
    ]
