-- ===== src/Duplex/Busy.antt =====
-- src/link.rs: a link in service that is congested: it sends SIB, and goes on receiving.
use mtp.Base.{◌≤◌, ◌≡◌, ◌⊎◌, sym, ◌∙◌, ap, arith, subst, true, false, ◌++◌, none, some}
use mtp.SignalUnit.Header.{SuHeader}
use mtp.SignalUnit.Status.{StatusIndication}
use mtp.SignalUnit.Unit.{SignalUnit, lssu}
use mtp.SignalUnit.Build
use mtp.Retransmission.Tx.{TxBody, on_ack}
use mtp.Link.Engine.{Mtp2Link}
use mtp.Link.Outbound.{header_for_control, in_service_su, choose, guard_t7, finish, poll_transmit}
use mtp.Link.Outbound
use mtp.Link.Inbound.{handle_su}
use mtp.Link.Time.{tick}
use mtp.Link.Invariant.{Inv}
use mtp.Link.Run.{Call, step, step-Inv}
use mtp.Link.Reception.{IsServing}
use mtp.Duplex.Pairing.{taking}
use mtp.Duplex.Steady.{unit, heard, handle_su-Receives, tick-steady}

pub record IsBusy (l : Mtp2Link) : Type 0 where
  pub inv : Inv l
  pub serving : IsServing l
  pub busy : l.local_busy ≡ true
  pub delay : 2 ≤ l.config.t7_excessive_delay

-- What it sends.
abbrev pub sib : Mtp2Link → SignalUnit
sib l = lssu (header_for_control l) StatusIndication.busy false

pub poll_transmit-busy : (l : Mtp2Link) → IsBusy l → poll_transmit l ≡ (guard_t7 l, some (sib l))
unfolding poll_transmit choose finish in_service_su Outbound.lssu Build.lssu
poll_transmit-busy l s = ground (arith, s.serving.state, s.busy)

pub guarded_lem : (l : Mtp2Link) → guard_t7 l ≡ record l { t7 = (guard_t7 l).t7 }
unfolding guard_t7
guarded_lem l = ground arith

-- The link after a tick in which it sends SIB and receives a FISU or an MSU.
pub record Takes (h : SuHeader) (b : TxBody) (l l' : Mtp2Link) : Type 0 where
  pub still : IsBusy l'
  pub tx : l'.tx ≡ on_ack h.bsn h.bib l.tx
  pub rx : l'.rx ≡ taking h.fsn b l.rx
  pub events : l'.events ≡ l.events ++ heard h.fsn b l.rx

pub takes_lem :
    (h : SuHeader) (b : TxBody) (l : Mtp2Link)
    → IsBusy l
    → Takes h b l (tick (handle_su (unit h b) (guard_t7 l)))
takes_lem h b l s =
    let m = guard_t7 l in
    let sent : m ≡ record l { t7 = m.t7 } = guarded_lem l in
    let kept : Inv m =
      subst Inv (ap (λ r. r.0) (poll_transmit-busy l s))
        (unfold step in step-Inv Call.poll_transmit l s.inv) in
    let serving : IsServing m = subst IsServing (sym sent) (record {
      state = s.serving.state;
      free = s.serving.free;
      up = s.serving.up;
      sound = s.serving.sound;
    }) in
    let l' = handle_su (unit h b) m in
    let r = handle_su-Receives h b m serving in
    let v : Inv l' = unfold step in step-Inv (Call.handle_su (unit h b)) m kept in
    let config : l'.config ≡ l.config = r.config ∙ ap (λ k. k.config) sent in
    let two : 2 ≤ l'.config.t7_excessive_delay = rw config s.delay in
    let runs : (l'.t7 ≡ none) ⊎ (l'.t7 ≡ some l'.config.t7_excessive_delay) = rw r.config r.t7 in
    let e = tick-steady l' v r.serving two runs in
    record {
      still = record {
        inv = unfold step in step-Inv Call.tick l' v;
        serving = subst IsServing (sym e) (record {
          state = r.serving.state;
          free = r.serving.free;
          up = r.serving.up;
          sound = r.serving.sound;
        });
        busy = ap (λ k. k.local_busy) e ∙ r.free ∙ ap (λ k. k.local_busy) sent ∙ s.busy;
        delay = rw e two;
      };
      tx = ap (λ k. k.tx) e ∙ r.tx ∙ ap (λ k. on_ack h.bsn h.bib k.tx) sent;
      rx = ap (λ k. k.rx) e ∙ r.rx ∙ ap (λ k. taking h.fsn b k.rx) sent;
      events = ap (λ k. k.events) e ∙ r.events ∙ ap (λ k. k.events ++ heard h.fsn b k.rx) sent;
    }
