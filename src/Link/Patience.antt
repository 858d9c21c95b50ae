-- ===== src/Link/Patience.antt =====
-- src/link.rs: T7 and a peer that acknowledges nothing.
use mtp.Base.{ℕ, zero, suc, ◌≤◌, ◌<◌, ◌≡◌, ◌∙◌, ap, arith, false, none, some, ◌==◌, if◌then◌else◌}
use mtp.SignalUnit.Header.{SuHeader}
use mtp.SignalUnit.Unit.{fisu}
use mtp.Monitor.Suerm.{record_su}
use mtp.Retransmission.Tx.{TxControl, unacked_len, on_ack}
use mtp.Link.Types.{Mtp2State}
use mtp.Link.Engine.{Mtp2Link, emit}
use mtp.Link.Traffic.{
  acknowledged, end_outage, end_busy, deliver, process_in_service_su, fisu_or_msu_at,
  handle_fisu_or_msu,
}
use mtp.Link.Inbound.{dispatch, monitor, handle_su}
use mtp.Link.Time.{step_timer, tick_t7, tick_t6, tick_t1, tick_t4, tick_t3, tick}
use mtp.Link.Invariant.{Inv}
use mtp.Link.Run.{Call, step, step-Inv, run}
use mtp.Link.Delay.{each_tick, IsSound, record_su-IsSound}

-- A link in service with outstanding MSUs, none of which the header `h` acknowledges.
pub record IsIgnored (h : SuHeader) (tx : TxControl) (l : Mtp2Link) : Type 0 where
  pub inv : Inv l
  pub state : l.state ≡ Mtp2State.in_service
  pub sound : IsSound l.suerm
  pub delay : 2 ≤ l.config.t7_excessive_delay
  pub keeps : l.tx ≡ tx
  pub outstanding : 0 < unacked_len tx
  pub nothing : on_ack h.bsn h.bib tx ≡ tx

-- What a FISU does to such a link.
handle_su-fisu :
    (h : SuHeader) (tx : TxControl) (l : Mtp2Link)
    → IsIgnored h tx l
    → let l' = handle_su (fisu h) l in
      (l'.state ≡ Mtp2State.in_service)
      × (l'.tx ≡ on_ack h.bsn h.bib l.tx)
      × (l'.suerm ≡ (record_su false l.suerm).0)
      × (l'.config ≡ l.config)
      × (l'.t7 ≡ (
          if unacked_len (on_ack h.bsn h.bib l.tx) == 0
          then none
          else some l.config.t7_excessive_delay))
unfolding handle_su monitor dispatch handle_fisu_or_msu fisu_or_msu_at process_in_service_su
    acknowledged end_outage end_busy deliver emit
handle_su-fisu h tx l w = ground (arith, record_su-IsSound l.suerm w.sound)

tick-patient :
    (l : Mtp2Link)
    → Inv l
    → l.state ≡ Mtp2State.in_service
    → l.remote_busy ≡ false
    → l.t7 ≡ some l.config.t7_excessive_delay
    → 2 ≤ l.config.t7_excessive_delay
    → ((tick l).state ≡ Mtp2State.in_service)
      × ((tick l).tx ≡ l.tx)
      × ((tick l).suerm ≡ l.suerm)
      × ((tick l).config ≡ l.config)
unfolding tick tick_t3 tick_t4 tick_t1 tick_t6 tick_t7 step_timer
tick-patient l v s b e two = ground arith

-- A FISU ends the peer's congestion.
handle_su-busy :
    (h : SuHeader) (tx : TxControl) (l : Mtp2Link)
    → IsIgnored h tx l
    → (handle_su (fisu h) l).remote_busy ≡ false
unfolding handle_su monitor dispatch handle_fisu_or_msu fisu_or_msu_at process_in_service_su
    acknowledged end_outage end_busy deliver emit
handle_su-busy h tx l w = ground (arith, record_su-IsSound l.suerm w.sound)

round-IsIgnored :
    (h : SuHeader) (tx : TxControl) (l : Mtp2Link)
    → IsIgnored h tx l
    → IsIgnored h tx (tick (handle_su (fisu h) l))
round-IsIgnored h tx l w =
    let l' = handle_su (fisu h) l in
    let (state, tx_eq, suerm, config, t7) = handle_su-fisu h tx l w in
    let same : l'.tx ≡ tx = tx_eq ∙ ap (λ k. on_ack h.bsn h.bib k) w.keeps ∙ w.nothing in
    let v : Inv l' = unfold step in step-Inv (Call.handle_su (fisu h)) l w.inv in
    let runs : l'.t7 ≡ some l'.config.t7_excessive_delay =
      ground (arith, t7, config, w.nothing, w.keeps, w.outstanding) in
    let two : 2 ≤ l'.config.t7_excessive_delay = rw config w.delay in
    let (state', tx', suerm', config') =
      tick-patient l' v state (handle_su-busy h tx l w) runs two in
    record {
      inv = unfold step in step-Inv Call.tick l' v;
      state = state';
      sound = rw suerm' (rw suerm (record_su-IsSound l.suerm w.sound).0);
      delay = rw config' two;
      keeps = tx' ∙ same;
      outstanding = w.outstanding;
      nothing = w.nothing;
    }

-- T7, if of two ticks or more, starts anew with every FISU, also with one that acknowledges nothing:
-- a peer that sends such a FISU in each tick keeps a well-formed link with a sound SUERM in service
-- for ever, with the same MSUs outstanding.
pub ignored_forever :
    (h : SuHeader) (tx : TxControl) (n : ℕ) (l : Mtp2Link)
    → IsIgnored h tx l
    → let l' = run (each_tick (fisu h) n) l in
      (l'.state ≡ Mtp2State.in_service) × (l'.tx ≡ tx) × (0 < unacked_len l'.tx)
unfolding run each_tick step
ignored_forever h tx zero l w = (w.state, w.keeps, rw w.keeps w.outstanding)
ignored_forever h tx (suc n) l w =
    ignored_forever h tx n (tick (handle_su (fisu h) l)) (round-IsIgnored h tx l w)
