-- ===== src/Duplex/Relief.antt =====
-- src/link.rs: two links in service, the first of which is no longer congested.
use mtp.Base.{ℕ, ◌≡◌, refl, sym, ◌∙◌, ap, arith, subst, false, List, [], ◌∷◌, ◌++◌, none}
use mtp.SignalUnit.Header.{SuHeader}
use mtp.SignalUnit.Unit.{fisu, msu}
use mtp.Retransmission.Tx.{TxBody, on_ack}
use mtp.Link.Types.{Event}
use mtp.Link.Engine.{Mtp2Link, emit}
use mtp.Link.Manage
use mtp.Link.Outbound.{guard_t7, poll_transmit}
use mtp.Link.Traffic.{
  acknowledged, end_outage, end_busy, deliver, process_in_service_su, fisu_or_msu_at,
  handle_fisu_or_msu,
}
use mtp.Link.Inbound.{dispatch, monitor, handle_su}
use mtp.Link.Time.{tick}
use mtp.Link.Invariant.{Inv}
use mtp.Link.Run.{Call, step, step-Inv}
use mtp.Link.Delay.{record_su-IsSound}
use mtp.Link.Reception.{IsServing}
use mtp.Duplex.Pairing.{taking}
use mtp.Duplex.Steady.{IsSteady, unit, heard, handle_su-Receives, settles}
use mtp.Duplex.Busy.{IsBusy, guarded_lem}
use mtp.Duplex.Held.{IsHeld, poll_transmit-Bears, poll_transmit-held}

pub local_busy_ended-IsSteady : (l : Mtp2Link) → IsBusy l → IsSteady (Manage.local_busy_ended l)
unfolding Manage.local_busy_ended step
local_busy_ended-IsSteady l s = record {
  inv = step-Inv Call.local_busy_ended l s.inv;
  serving = record {
    state = s.serving.state;
    free = s.serving.free;
    up = s.serving.up;
    sound = s.serving.sound;
  };
  free = refl;
  delay = s.delay;
}

-- The link that has learned that the peer's congestion is over.
abbrev relieved : Mtp2Link → Mtp2Link
relieved l = record l {
  remote_busy = false;
  t6 = none;
  events = l.events ++ (Event.remote_busy_ended ∷ []);
}

-- A FISU or an MSU first tells that.
fisu-relieved :
    (h : SuHeader) (k : ℕ) (l : Mtp2Link)
    → IsHeld k l
    → handle_su (fisu h) l ≡ handle_su (fisu h) (relieved l)
unfolding handle_su monitor dispatch handle_fisu_or_msu fisu_or_msu_at process_in_service_su
    end_outage end_busy deliver acknowledged emit
fisu-relieved h k l s =
    ground (arith, s.busy, s.bears.state, s.bears.up, record_su-IsSound l.suerm s.bears.sound)

msu-relieved :
    (h : SuHeader) (sio : ℕ) (sif : List ℕ) (k : ℕ) (l : Mtp2Link)
    → IsHeld k l
    → handle_su (msu h sio sif) l ≡ handle_su (msu h sio sif) (relieved l)
unfolding handle_su monitor dispatch handle_fisu_or_msu fisu_or_msu_at process_in_service_su
    end_outage end_busy deliver acknowledged emit
msu-relieved h sio sif k l s =
    ground (arith, s.busy, s.bears.state, s.bears.up, record_su-IsSound l.suerm s.bears.sound)

unit-relieved :
    (h : SuHeader) (b : TxBody) (k : ℕ) (l : Mtp2Link)
    → IsHeld k l
    → handle_su (unit h b) l ≡ handle_su (unit h b) (relieved l)
unit-relieved h TxBody.fisu k l s = fisu-relieved h k l s
unit-relieved h (TxBody.msu sio sif) k l s = msu-relieved h sio sif k l s

-- The link after a tick in which it sends a FISU and hears a unit that ends the congestion.
pub record Resumes (h : SuHeader) (b : TxBody) (l l' : Mtp2Link) : Type 0 where
  pub steady : IsSteady l'
  pub tx : l'.tx ≡ on_ack h.bsn h.bib l.tx
  pub rx : l'.rx ≡ taking h.fsn b l.rx
  pub events : l'.events ≡ (l.events ++ (Event.remote_busy_ended ∷ [])) ++ heard h.fsn b l.rx

heard-Resumes :
    (h : SuHeader) (b : TxBody) (k : ℕ) (l : Mtp2Link)
    → IsHeld k l
    → Resumes h b l (tick (handle_su (unit h b) l))
heard-Resumes h b k l s =
    let serving : IsServing (relieved l) = record {
      state = s.bears.state;
      free = refl;
      up = s.bears.up;
      sound = s.bears.sound;
    } in
    let e = unit-relieved h b k l s in
    let r = handle_su-Receives h b (relieved l) serving in
    let l' = handle_su (unit h b) (relieved l) in
    let v : Inv l' =
      subst Inv e (unfold step in step-Inv (Call.handle_su (unit h b)) l s.bears.inv) in
    let (steady, tx, rx, events) =
      settles l' v r.serving (r.free ∙ s.bears.free) (rw r.config s.bears.two) (rw r.config r.t7) in
    subst (Resumes h b l) (sym (ap tick e))
      (record { steady = steady; tx = tx ∙ r.tx; rx = rx ∙ r.rx; events = events ∙ r.events })

pub resumes_lem :
    (h : SuHeader) (b : TxBody) (k : ℕ) (l : Mtp2Link)
    → IsHeld k l
    → Resumes h b l (tick (handle_su (unit h b) (poll_transmit l).0))
resumes_lem h b k l s =
    let e : (poll_transmit l).0 ≡ record l { t7 = (guard_t7 l).t7 } =
      ap (λ r. r.0) (poll_transmit-held k l s) ∙ guarded_lem l in
    let held : IsHeld k (poll_transmit l).0 = record {
      bears = poll_transmit-Bears k l s.bears;
      busy = ap (λ k. k.remote_busy) e ∙ s.busy;
    } in
    let r = heard-Resumes h b k (poll_transmit l).0 held in
    record {
      steady = r.steady;
      tx = r.tx ∙ ap (λ k. on_ack h.bsn h.bib k.tx) e;
      rx = r.rx ∙ ap (λ k. taking h.fsn b k.rx) e;
      events =
          r.events ∙ ap (λ k. (k.events ++ (Event.remote_busy_ended ∷ [])) ++ heard h.fsn b k.rx) e;
    }
