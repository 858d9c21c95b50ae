-- ===== src/Duplex/Taken.antt =====
-- src/link.rs: what a received signal unit does to the transmit and the receive side, and to the
-- MSUs reported.
use mtp.Base.{
  ℕ, false, Bool, List, [], ◌∷◌, ◌≡◌, refl, ◌∙◌, ap, arith, Option, none, some, inl, inr,
  Bool-cases, append-nil, ◌⊎◌,
}
use mtp.SignalUnit.Header.{SuHeader}
use mtp.SignalUnit.Unit.{SignalUnit, fisu, lssu, msu}
use mtp.Retransmission.Tx.{TxControl, on_ack}
use mtp.Retransmission.Rx.{RxOutcome, accepted, discarded, retransmission_requested, on_msu}
use mtp.Retransmission.Channel.{delivered_by}
use mtp.Link.Types.{Event, Mtp2State, OutOfServiceReason}
use mtp.Link.Engine.{Mtp2Link, emit, stop_all_timers, enter_in_service, fail_out_of_service}
use mtp.Link.Traffic.{
  acknowledged, end_outage, end_busy, deliver, sequence_check, report, process_in_service_su,
  fisu_or_msu_at, handle_fisu_or_msu,
}
use mtp.Link.Inbound.{dispatch, monitor, handle_su}
use mtp.Link.Wire.Kept.{Same, handle_lssu-Same, monitor-Same, end_outage-Same, end_busy-Same}
use mtp.Duplex.Quiet.{
  Quiet, msus, msus-snoc, fail_out_of_service-Quiet, enter_in_service-Quiet, end_outage-Quiet,
  end_busy-Quiet, monitor-Quiet, handle_lssu-Quiet,
}
use mtp.Duplex.Sent.{ack_of}

-- The transmit side takes the acknowledgement, or is left alone.
pub data TakesAck (t t' : TxControl) (su : SignalUnit) : Type 0 where
  untouched : t' ≡ t → TakesAck t t' su
  taken :
      (bsn : ℕ) (bib : Bool)
      → ack_of su ≡ (bsn, bib) ∷ []
      → t' ≡ on_ack bsn bib t
      → TakesAck t t' su

-- The receive side takes the MSU, and MTP3 is told of it if it is accepted; or nothing happens.
pub data TakesMsu (l l' : Mtp2Link) (su : SignalUnit) : Type 0 where
  unused : l'.rx ≡ l.rx → Quiet l l' → TakesMsu l l' su
  used :
      (h : SuHeader) (sio : ℕ) (sif : List ℕ)
      → su ≡ msu h sio sif
      → l'.rx ≡ (on_msu h.fsn sio sif l.rx).0
      → msus l'.events ≡ delivered_by (on_msu h.fsn sio sif l.rx).1 (msus l.events)
      → TakesMsu l l' su

pub record Takes (l l' : Mtp2Link) (su : SignalUnit) : Type 0 where
  pub ack : TakesAck l.tx l'.tx su
  pub msu : TakesMsu l l' su

-- A link that changes neither side and reports no MSU.
pub record Idle (l l' : Mtp2Link) : Type 0 where
  pub same : Same l l'
  pub quiet : Quiet l l'

then-Idle : {l l' l'' : Mtp2Link} → Idle l l' → Idle l' l'' → Idle l l''
then-Idle i j = record {
  same = (j.same.0 ∙ i.same.0, j.same.1 ∙ i.same.1);
  quiet = j.quiet ∙ i.quiet;
}

Idle-Takes : {l l' : Mtp2Link} (su : SignalUnit) → Idle l l' → Takes l l' su
Idle-Takes su i = record {
  ack = TakesAck.untouched i.same.0;
  msu = TakesMsu.unused i.same.1 i.quiet;
}

-- A step that changes neither side may come first.
ack_after :
    {l m : Mtp2Link} {t : TxControl} {su : SignalUnit}
    → Idle l m
    → TakesAck m.tx t su
    → TakesAck l.tx t su
ack_after i (TakesAck.untouched e) = TakesAck.untouched (e ∙ i.same.0)
ack_after i (TakesAck.taken bsn bib s e) =
    TakesAck.taken bsn bib s (e ∙ ap (on_ack bsn bib) i.same.0)

msu_after :
    {l m l' : Mtp2Link} {su : SignalUnit}
    → m.rx ≡ l.rx
    → Quiet l m
    → TakesMsu m l' su
    → TakesMsu l l' su
msu_after rx q (TakesMsu.unused e n) = TakesMsu.unused (e ∙ rx) (n ∙ q)
msu_after {l} {m} rx q (TakesMsu.used h sio sif s e n) =
    TakesMsu.used h sio sif s (e ∙ ap (λ r. (on_msu h.fsn sio sif r).0) rx) (
      n
      ∙ ap (λ r. delivered_by (on_msu h.fsn sio sif r).1 (msus m.events)) rx
      ∙ ap (delivered_by (on_msu h.fsn sio sif l.rx).1) q)

after-Idle : {l m l' : Mtp2Link} {su : SignalUnit} → Idle l m → Takes m l' su → Takes l l' su
after-Idle i t = record { ack = ack_after i t.ack; msu = msu_after i.same.1 i.quiet t.msu }

-- The report of an outcome.
report_lem :
    (o : RxOutcome) (l : Mtp2Link)
    → Same l (report o l) × (msus (report o l).events ≡ delivered_by o (msus l.events))
unfolding report emit
report_lem (accepted sio sif) l = ((refl, refl), msus-snoc l.events (Event.msu sio sif))
report_lem retransmission_requested l =
    ((refl, refl), msus-snoc l.events Event.retransmission_requested ∙ append-nil (msus l.events))
report_lem discarded l = ((refl, refl), refl)

-- The unit with a header and, for an MSU, a payload.
abbrev unit_of : SuHeader → Option (ℕ × List ℕ) → SignalUnit
unit_of h none = fisu h
unit_of h (some (sio, sif)) = msu h sio sif

unit_of-ack : (h : SuHeader) (p : Option (ℕ × List ℕ)) → ack_of (unit_of h p) ≡ (h.bsn, h.bib) ∷ []
unit_of-ack h none = refl
unit_of-ack h (some (sio, sif)) = refl

deliver_cases :
    (h : SuHeader) (sio : ℕ) (sif : List ℕ) (l : Mtp2Link)
    → (deliver h (some (sio, sif)) l ≡ l)
      ⊎ (deliver h (some (sio, sif)) l ≡ sequence_check h.fsn sio sif l)
unfolding deliver
deliver_cases h sio sif l = ground arith

deliver_lem :
    (h : SuHeader) (p : Option (ℕ × List ℕ)) (l : Mtp2Link)
    → ((deliver h p l).tx ≡ l.tx) × TakesMsu l (deliver h p l) (unit_of h p)
deliver_lem h none l = unfold deliver in (refl, TakesMsu.unused refl refl)
deliver_lem h (some (sio, sif)) l = elim (deliver_cases h sio sif l) [
  | inl e ↦ rw e (refl, TakesMsu.unused refl refl)
  | inr e ↦
      (let (rx, outcome) = on_msu h.fsn sio sif l.rx in
        let ((tx, rx'), told) = report_lem outcome (record l { rx = rx }) in
        rw e (unfold sequence_check in (tx, TakesMsu.used h sio sif refl rx' told)))
]

process_lem :
    (h : SuHeader) (p : Option (ℕ × List ℕ)) (l : Mtp2Link)
    → Takes l (process_in_service_su h p l) (unit_of h p)
unfolding process_in_service_su acknowledged
process_lem h p l =
    let a = acknowledged h l in
    let b = end_outage a in
    let m = end_busy b in
    let outage : Idle a b = record { same = end_outage-Same a; quiet = end_outage-Quiet a } in
    let busy : Idle b m = record { same = end_busy-Same b; quiet = end_busy-Quiet b } in
    let i : Idle a m = then-Idle outage busy in
    let (tx, checked) = deliver_lem h p m in
    record {
      ack = TakesAck.taken h.bsn h.bib (unit_of-ack h p) (tx ∙ i.same.0);
      msu = msu_after i.same.1 i.quiet checked;
    }

fisu_or_msu_lem :
    (st : Mtp2State) (h : SuHeader) (p : Option (ℕ × List ℕ)) (l : Mtp2Link)
    → Takes l (fisu_or_msu_at st h p l) (unit_of h p)
unfolding fisu_or_msu_at
fisu_or_msu_lem Mtp2State.in_service h p l = process_lem h p l
fisu_or_msu_lem Mtp2State.processor_outage h p l = process_lem h p l
fisu_or_msu_lem Mtp2State.aligned_ready h p l =
    let served : Idle l (enter_in_service l) = record {
      same = unfold enter_in_service emit in (refl, refl);
      quiet = enter_in_service-Quiet l;
    } in
    after-Idle served (process_lem h p (enter_in_service l))
fisu_or_msu_lem st h p l = Idle-Takes (unit_of h p) (record { same = (refl, refl); quiet = refl })

dispatch_lem : (su : SignalUnit) (l : Mtp2Link) → Takes l (dispatch su l) su
unfolding dispatch handle_fisu_or_msu
dispatch_lem (fisu h) l = fisu_or_msu_lem l.state h none l
dispatch_lem (lssu h i x) l =
    Idle-Takes (lssu h i x) (record { same = handle_lssu-Same i l; quiet = handle_lssu-Quiet i l })
dispatch_lem (msu h sio sif) l = fisu_or_msu_lem l.state h (some (sio, sif)) l

pub handle_su-Takes : (su : SignalUnit) (l : Mtp2Link) → Takes l (handle_su su l) su
unfolding handle_su
handle_su-Takes su l =
    let m = (monitor false l).0 in
    let i : Idle l m = record { same = monitor-Same false l; quiet = monitor-Quiet false l } in
    let out = fail_out_of_service OutOfServiceReason.suerm_failure m in
    let fails : Idle m out = record {
      same = unfold fail_out_of_service emit stop_all_timers in (refl, refl);
      quiet = fail_out_of_service-Quiet OutOfServiceReason.suerm_failure m;
    } in
    elim (Bool-cases (monitor false l).1) [
      | inl e ↦ rw e (Idle-Takes su (then-Idle i fails))
      | inr e ↦ rw e (after-Idle i (dispatch_lem su m))
    ]
