-- ===== src/Duplex/Service.antt =====
-- src/link.rs: two links that go into service together.
use mtp.Base.{◌<◌, ◌≤◌, ◌≡◌, ◌⊎◌, sym, ◌∙◌, ap, arith, subst, false, none, some}
use mtp.SignalUnit.Header.{SuHeader}
use mtp.SignalUnit.Unit.{fisu}
use mtp.Monitor.Suerm.{reset}
use mtp.Retransmission.Tx.{on_ack}
use mtp.Link.Types.{Mtp2State}
use mtp.Link.Engine.{Mtp2Link, emit, enter_in_service}
use mtp.Link.Traffic.{
  acknowledged, end_outage, end_busy, deliver, process_in_service_su, fisu_or_msu_at,
  handle_fisu_or_msu,
}
use mtp.Link.Inbound.{dispatch, monitor, handle_su}
use mtp.Link.Time.{tick}
use mtp.Link.Invariant.{Inv}
use mtp.Link.Run.{Call, step, step-Inv}
use mtp.Link.Reception.{IsServing}
use mtp.Duplex.Quiet.{Quiet, msus, enter_in_service-Quiet}
use mtp.Duplex.Steady.{IsSteady, settles}

-- A link that is ready, and what it needs for service.
pub record IsReady (l : Mtp2Link) : Type 0 where
  pub inv : Inv l
  pub state : l.state ≡ Mtp2State.aligned_ready
  pub free : l.local_busy ≡ false
  pub delay : 2 ≤ l.config.t7_excessive_delay
  pub bears : 0 < l.suerm.threshold

-- The link in service.
pub record Serves (h : SuHeader) (l l' : Mtp2Link) : Type 0 where
  pub steady : IsSteady l'
  pub tx : l'.tx ≡ on_ack h.bsn h.bib l.tx
  pub rx : l'.rx ≡ l.rx
  pub told : Quiet l l'

fisu_lem :
    (h : SuHeader) (l : Mtp2Link)
    → IsReady l
    → handle_su (fisu h) l ≡ acknowledged h (enter_in_service l)
unfolding handle_su monitor dispatch handle_fisu_or_msu fisu_or_msu_at process_in_service_su
    end_outage end_busy deliver acknowledged enter_in_service emit
fisu_lem h l r = ground (arith, r.inv.quiet, r.state)

entered :
    (h : SuHeader) (l : Mtp2Link)
    → IsReady l
    → let m = acknowledged h (enter_in_service l) in
      IsServing m
      × (m.config ≡ l.config)
      × (m.local_busy ≡ l.local_busy)
      × (m.tx ≡ on_ack h.bsn h.bib l.tx)
      × (m.rx ≡ l.rx)
      × ((m.t7 ≡ none) ⊎ (m.t7 ≡ some l.config.t7_excessive_delay))
unfolding acknowledged enter_in_service emit reset
entered h l r = ground (arith, r.inv.quiet, r.state, r.bears)

quiet_lem : (h : SuHeader) (l : Mtp2Link) → Quiet l (acknowledged h (enter_in_service l))
unfolding acknowledged
quiet_lem h l = enter_in_service-Quiet l

pub serves_lem :
    (h : SuHeader) (l : Mtp2Link) → IsReady l → Serves h l (tick (handle_su (fisu h) l))
serves_lem h l r =
    let m = acknowledged h (enter_in_service l) in
    let l' = handle_su (fisu h) l in
    let e = fisu_lem h l r in
    let (serving, config, busy, tx, rx, t7) = entered h l r in
    let (steady, tx', rx', events) =
      settles l' (unfold step in step-Inv (Call.handle_su (fisu h)) l r.inv)
        (subst IsServing (sym e) serving) (ap (λ k. k.local_busy) e ∙ busy ∙ r.free)
        (rw e (rw config r.delay)) (rw e (rw config t7)) in
    record {
      steady = steady;
      tx = tx' ∙ ap (λ k. k.tx) e ∙ tx;
      rx = rx' ∙ ap (λ k. k.rx) e ∙ rx;
      told = ap msus (events ∙ ap (λ k. k.events) e) ∙ quiet_lem h l;
    }
