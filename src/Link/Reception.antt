-- ===== src/Link/Reception.antt =====
-- src/link.rs: what a link in service hands to MTP3.
use mtp.Base.{
  ℕ, ◌≡◌, refl, sym, ◌∙◌, ap, ap₂, arith, false, List, [], ◌∷◌, ◌++◌, append-nil, append_assoc,
  subst,
}
use mtp.SignalUnit.Header.{SuHeader}
use mtp.SignalUnit.Unit.{msu}
use mtp.Monitor.Suerm.{record_su}
use mtp.Retransmission.Rx.{
  RxControl, RxOutcome, accepted, discarded, retransmission_requested, on_msu,
}
use mtp.Link.Types.{Mtp2State, Event}
use mtp.Link.Engine.{Mtp2Link, emit}
use mtp.Link.Traffic.{
  acknowledged, end_outage, end_busy, report, sequence_check, deliver, process_in_service_su,
  fisu_or_msu_at, handle_fisu_or_msu,
}
use mtp.Link.Inbound.{dispatch, monitor, handle_su}
use mtp.Link.Run.{Call, step, run}
use mtp.Link.Delay.{IsSound, record_su-IsSound}

-- A received MSU: its header, its service information octet and field.
pub record Arrival : Type 0 where
  pub header : SuHeader
  pub sio : ℕ
  pub sif : List ℕ

abbrev pub arrive : List Arrival → List Call
arrive [] = []
arrive (a ∷ arrivals) = Call.handle_su (msu a.header a.sio a.sif) ∷ arrive arrivals

-- What MTP3 is told of an outcome of the sequence check.
abbrev pub tell : RxOutcome → List Event
tell (accepted sio sif) = Event.msu sio sif ∷ []
tell retransmission_requested = Event.retransmission_requested ∷ []
tell discarded = []

-- The receive side alone, on the same MSUs.
unfoldable pub check_all : List Arrival → RxControl → RxControl × List Event
check_all [] r = (r, [])
check_all (a ∷ arrivals) r =
    let (r', outcome) = on_msu a.header.fsn a.sio a.sif r in
    let (r'', events) = check_all arrivals r' in (r'', tell outcome ++ events)

-- A link in service whose peer is neither congested nor out, and whose SUERM is sound.
pub record IsServing (l : Mtp2Link) : Type 0 where
  pub state : l.state ≡ Mtp2State.in_service
  pub free : l.remote_busy ≡ false
  pub up : l.remote_processor_outage ≡ false
  pub sound : IsSound l.suerm

-- A report changes the events only.
abbrev pub reported : RxOutcome → Mtp2Link → Mtp2Link
reported o l = record l { events = l.events ++ tell o }

pub report-reported : (o : RxOutcome) (l : Mtp2Link) → report o l ≡ reported o l
unfolding report emit
report-reported (accepted sio sif) l = refl
report-reported retransmission_requested l = refl
report-reported discarded l = ap (λ es. record l { events = es }) (sym (append-nil l.events))

-- The link after the acknowledgement part of a received unit.
abbrev pub passed : SuHeader → Mtp2Link → Mtp2Link
passed h l = acknowledged h (record l { suerm = (record_su false l.suerm).0 })

pub handle_su-passed :
    (h : SuHeader) (sio : ℕ) (sif : List ℕ) (l : Mtp2Link)
    → IsServing l
    → handle_su (msu h sio sif) l ≡ sequence_check h.fsn sio sif (passed h l)
unfolding handle_su monitor dispatch handle_fisu_or_msu fisu_or_msu_at process_in_service_su
    end_outage end_busy deliver acknowledged
handle_su-passed h sio sif l s = ground (arith, record_su-IsSound l.suerm s.sound)

arrives :
    (a : Arrival) (l : Mtp2Link)
    → IsServing l
    → let l' = handle_su (msu a.header a.sio a.sif) l in
      let r = on_msu a.header.fsn a.sio a.sif l.rx in
      IsServing l' × (l'.rx ≡ r.0) × (l'.events ≡ l.events ++ tell r.1)
arrives a l s =
    let (rx, outcome) = on_msu a.header.fsn a.sio a.sif l.rx in
    let p = passed a.header l in
    let e : handle_su (msu a.header a.sio a.sif) l ≡ reported outcome (record p { rx = rx }) =
      handle_su-passed a.header a.sio a.sif l s
      ∙ (unfold sequence_check acknowledged in report-reported outcome (record p { rx = rx })) in
    subst (λ l'. IsServing l' × (l'.rx ≡ rx) × (l'.events ≡ l.events ++ tell outcome)) (sym e)
      (unfold acknowledged in
        (
          record {
            state = s.state;
            free = s.free;
            up = s.up;
            sound = (record_su-IsSound l.suerm s.sound).0;
          },
          refl,
          refl,
        ))

-- A link in service with a sound SUERM, whose peer is neither congested nor out, treats received
-- MSUs just as its receive side does alone: whatever their headers, the events that it adds are
-- those of the outcomes, in order, each accepted MSU once.
pub run-check_all :
    (arrivals : List Arrival) (l : Mtp2Link)
    → IsServing l
    → ((run (arrive arrivals) l).rx ≡ (check_all arrivals l.rx).0)
      × ((run (arrive arrivals) l).events ≡ l.events ++ (check_all arrivals l.rx).1)
unfolding run step check_all
run-check_all [] l s = (refl, sym (append-nil l.events))
run-check_all (a ∷ arrivals) l s =
    let (s', rx, events) = arrives a l s in
    let l' = handle_su (msu a.header a.sio a.sif) l in
    let outcome = (on_msu a.header.fsn a.sio a.sif l.rx).1 in
    let (ends, told) = run-check_all arrivals l' s' in
    (
      ends ∙ ap (λ r. (check_all arrivals r).0) rx,
      told
          ∙ ap₂ (λ es r. es ++ (check_all arrivals r).1) events rx
          ∙ append_assoc l.events (tell outcome) _,
    )
