-- ===== src/Duplex/Pause.antt =====
-- src/link.rs: two links in service, the first of which is congested, exchange a unit in each tick.
use mtp.Base.{
  ℕ, zero, suc, ◌≡◌, refl, sym, ◌∙◌, ap, ap₂, subst, false, List, [], ◌∷◌, ◌++◌, some, append-nil,
  if◌then◌else◌,
}
use mtp.SignalUnit.Header.{SuHeader}
use mtp.SignalUnit.Unit.{SignalUnit, fisu}
use mtp.Retransmission.Tx.{TxBody}
use mtp.Link.Types.{Event}
use mtp.Link.Engine.{Mtp2Link}
use mtp.Link.Outbound.{guard_t7, header_for_control, poll_transmit}
use mtp.Link.Inbound.{handle_su}
use mtp.Link.Time.{tick}
use mtp.Link.Emergency.{receive, exchange, exchanges}
use mtp.Duplex.Quiet.{msus}
use mtp.Duplex.Pairing.{IsPaired, acked-IsPaired}
use mtp.Duplex.Belated.{settled}
use mtp.Duplex.Busy.{IsBusy, sib, poll_transmit-busy, guarded_lem, takes_lem}
use mtp.Duplex.Held.{IsHeld, noticed, held_lem, poll_transmit-Bears, poll_transmit-held}

-- The first link is congested, and the second, which is held, bears `k` ticks more of that. The second
-- has received all that the first has sent, and the first all that the second has sent, which it has
-- yet to acknowledge; the second has `q` to send.
pub record IsPaused (k : ℕ) (q : List (ℕ × List ℕ)) (a b : Mtp2Link) : Type 0 where
  pub busy : IsBusy a
  pub held : IsHeld k b
  pub there : IsPaired a.tx b.rx
  pub back : IsPaired (settled a.rx b.tx) a.rx
  pub queue : (settled a.rx b.tx).pending ≡ q

-- What stays while the first link is congested.
pub record Stays (a b a' b' : Mtp2Link) : Type 0 where
  pub pending : a'.tx.pending ≡ a.tx.pending
  pub quiet : msus a'.events ≡ msus a.events
  pub told : b'.events ≡ b.events

pub exchange-busy :
    (a b b₁ : Mtp2Link) (su : SignalUnit)
    → IsBusy a
    → poll_transmit b ≡ (b₁, some su)
    → exchange (a, b) ≡ (tick (handle_su su (guard_t7 a)), tick (handle_su (sib a) b₁))
unfolding exchange receive
exchange-busy a b b₁ su s e = rw (poll_transmit-busy a s) (rw e refl)

-- The first link sends SIB, and the second a FISU with its acknowledgement.
module _ (k : ℕ) (q : List (ℕ × List ℕ)) (a b : Mtp2Link) (p : IsPaused (suc k) q a b) where
  abbrev h : SuHeader
  h = header_for_control b

  abbrev m : Mtp2Link
  m = (poll_transmit b).0

  m_lem : m ≡ record b { t7 = (guard_t7 b).t7 }
  m_lem = ap (λ r. r.0) (poll_transmit-held (suc k) b p.held) ∙ guarded_lem b

  abbrev a' : Mtp2Link
  a' = tick (handle_su (fisu h) (guard_t7 a))

  abbrev b' : Mtp2Link
  b' = tick (handle_su (sib a) m)

  exchange_lem : exchange (a, b) ≡ (a', b')
  exchange_lem =
      exchange-busy a b m (fisu h) p.busy (ap (λ r. (m, r.1)) (poll_transmit-held (suc k) b p.held))

  paused_lem : IsPaused k q a' b' × Stays a b a' b'
  unfolding header_for_control
  paused_lem =
      let t = takes_lem h TxBody.fisu a p.busy in
      let (held, tx, rx, events) =
        held_lem (header_for_control a) false k m (poll_transmit-Bears (suc k) b p.held.bears) in
      let (paired, pending) = acked-IsPaired a.tx b.rx p.there in
      let rx' : b'.rx ≡ b.rx = rx ∙ ap (λ l. l.rx) m_lem in
      let tx' : b'.tx ≡ b.tx = tx ∙ ap (λ l. l.tx) m_lem in
      let same : settled a'.rx b'.tx ≡ settled a.rx b.tx = ap₂ settled t.rx tx' in
      (
        record {
          busy = t.still;
          held = held;
          there =
              subst (λ r. IsPaired a'.tx r) (sym rx')
                (subst (λ u. IsPaired u b.rx) (sym t.tx) paired);
          back = subst (λ u. IsPaired u a'.rx) (sym same) (subst (IsPaired _) (sym t.rx) p.back);
          queue = ap (λ u. u.pending) same ∙ p.queue;
        },
        record {
          pending = ap (λ u. u.pending) t.tx ∙ pending;
          quiet = ap msus (t.events ∙ append-nil a.events);
          told =
              events
              ∙ ap (λ l. l.events ++ noticed l) m_lem
              ∙ ap (λ c. b.events ++ (if c then [] else Event.remote_busy ∷ [])) p.held.busy
              ∙ append-nil b.events;
        },
      )

pub exchange-Paused :
    (k : ℕ) (q : List (ℕ × List ℕ)) (a b : Mtp2Link)
    → IsPaused (suc k) q a b
    → let (a', b') = exchange (a, b) in IsPaused k q a' b' × Stays a b a' b'
exchange-Paused k q a b p =
    subst (λ r. IsPaused k q r.0 r.1 × Stays a b r.0 r.1) (sym (exchange_lem k q a b p))
      (paused_lem k q a b p)

pub exchanges-Paused :
    (k : ℕ) (q : List (ℕ × List ℕ)) (a b : Mtp2Link)
    → IsPaused k q a b
    → let (a', b') = exchanges k (a, b) in IsPaused 0 q a' b' × Stays a b a' b'
unfolding exchanges
exchanges-Paused zero q a b p = (p, record { pending = refl; quiet = refl; told = refl })
exchanges-Paused (suc k) q a b p =
    let (p', s) = exchange-Paused k q a b p in
    let (ends, s') = exchanges-Paused k q (exchange (a, b)).0 (exchange (a, b)).1 p' in
    (
      ends,
      record {
        pending = s'.pending ∙ s.pending;
        quiet = s'.quiet ∙ s.quiet;
        told = s'.told ∙ s.told;
      },
    )
