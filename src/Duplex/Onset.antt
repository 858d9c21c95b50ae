-- ===== src/Duplex/Onset.antt =====
-- src/link.rs: two links in service, the first of which becomes congested.
use mtp.Base.{
  ℕ, suc, ◌≡◌, refl, sym, ◌∙◌, ap, subst, false, [], ◌∷◌, ◌++◌, some, take, drop, All,
  if◌then◌else◌,
}
use mtp.SignalUnit.Unit.{SignalUnit}
use mtp.Retransmission.Tx.{poll}
use mtp.Link.Types.{Event}
use mtp.Link.Engine.{Mtp2Link}
use mtp.Link.Outbound.{guard_t7, header_for_control, poll_transmit}
use mtp.Link.Inbound.{handle_su}
use mtp.Link.Time.{tick}
use mtp.Link.Emergency.{exchange}
use mtp.Duplex.Quiet.{msus, msus-append}
use mtp.Duplex.Pairing.{IsPaired, acked-IsPaired}
use mtp.Duplex.Belated.{settled, settled_lem}
use mtp.Duplex.Steady.{IsSteady, unit, heard, poll_transmit-steady, polled_lem}
use mtp.Duplex.Live.{IsCarried, poll-Fits, msus-heard, next_header, next_body}
use mtp.Duplex.Busy.{IsBusy, sib, takes_lem}
use mtp.Duplex.Held.{Bears, noticed, held_lem, poll_transmit-Bears}
use mtp.Duplex.Pause.{IsPaused, exchange-busy}

-- The first exchange after the congestion has begun: the second link has not heard of it, and sends
-- its next frame.
pub record Begins (k : ℕ) (a b a' b' : Mtp2Link) : Type 0 where
  pub paused : IsPaused k (drop 1 b.tx.pending) a' b'
  pub pending : a'.tx.pending ≡ a.tx.pending
  pub taken : msus a'.events ≡ msus a.events ++ take 1 b.tx.pending
  pub told : b'.events ≡ b.events ++ (Event.remote_busy ∷ [])

module _ (k : ℕ) (a b : Mtp2Link) (busy : IsBusy a) (steady : IsSteady b) (bears : Bears (suc k) b)
    (there : IsPaired a.tx b.rx) (back : IsPaired b.tx a.rx)
    (carried : All IsCarried b.tx.pending) where
  abbrev su : SignalUnit
  su = unit (next_header b) (next_body b)

  abbrev m : Mtp2Link
  m = (poll_transmit b).0

  polled : poll_transmit b ≡ (guard_t7 (record b { tx = (poll b.tx).0 }), some su)
  polled = poll_transmit-steady b steady (poll-Fits b.tx a.rx _ back refl carried)

  m_lem : m ≡ record b { tx = (poll b.tx).0; t7 = m.t7 }
  m_lem =
      let e = ap (λ r. r.0) polled in
      e ∙ polled_lem b ∙ ap (λ l. record b { tx = (poll b.tx).0; t7 = l.t7 }) (sym e)

  abbrev a' : Mtp2Link
  a' = tick (handle_su su (guard_t7 a))

  abbrev b' : Mtp2Link
  b' = tick (handle_su (sib a) m)

  begins_lem : Begins k a b a' b'
  begins_lem =
      let t = takes_lem (next_header b) (next_body b) a busy in
      let (held, tx, rx, events) =
        held_lem (header_for_control a) false k m (poll_transmit-Bears (suc k) b bears) in
      let (paired, pending) = acked-IsPaired a.tx b.rx there in
      let (paired', pending', taken) = settled_lem b.tx a.rx back b.tx.pending refl in
      let fsn = (poll b.tx).1.fsn in
      let rx' : b'.rx ≡ b.rx = rx ∙ ap (λ l. l.rx) m_lem in
      let tx' : b'.tx ≡ (poll b.tx).0 = tx ∙ ap (λ l. l.tx) m_lem in
      record {
        paused = record {
          busy = t.still;
          held = held;
          there =
              subst (λ r. IsPaired a'.tx r) (sym rx')
                (subst (λ u. IsPaired u b.rx) (sym t.tx) paired);
          back =
              subst (λ u. IsPaired (settled a'.rx u) a'.rx) (sym tx')
                (subst (λ r. IsPaired (settled r (poll b.tx).0) r) (sym t.rx) paired');
          queue =
              ap (λ u. (settled a'.rx u).pending) tx'
              ∙ ap (λ r. (settled r (poll b.tx).0).pending) t.rx
              ∙ pending';
        };
        pending = ap (λ u. u.pending) t.tx ∙ pending;
        taken =
            ap msus t.events
            ∙ msus-append a.events (heard fsn (next_body b) a.rx)
            ∙ ap (λ k. msus a.events ++ k) (msus-heard fsn (next_body b) a.rx ∙ taken);
        told =
            events
            ∙ ap (λ l. l.events ++ noticed l) m_lem
            ∙ ap (λ c. b.events ++ (if c then [] else Event.remote_busy ∷ [])) steady.serving.free;
      }

  pub exchange-Begins : let (x, y) = exchange (a, b) in Begins k a b x y
  exchange-Begins =
      subst (λ r. Begins k a b r.0 r.1)
        (sym (exchange-busy a b m su busy (ap (λ r. (m, r.1)) polled))) begins_lem
