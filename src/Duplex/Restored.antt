-- ===== src/Duplex/Restored.antt =====
-- src/link.rs: the exchange after the end of the first link's congestion.
use mtp.Base.{
  ℕ, ◌≡◌, refl, sym, ◌∙◌, ap, ap₂, subst, false, List, ◌++◌, take, drop, append-nil, All,
}
use mtp.SignalUnit.Header.{SuHeader}
use mtp.SignalUnit.Unit.{SignalUnit, fisu}
use mtp.Retransmission.Tx.{TxBody, poll}
use mtp.Link.Types.{Event}
use mtp.Link.Engine.{Mtp2Link}
use mtp.Link.Manage.{local_busy_ended}
use mtp.Link.Outbound.{header_for_control, poll_transmit}
use mtp.Link.Inbound.{handle_su}
use mtp.Link.Time.{tick}
use mtp.Link.Emergency.{receive, exchange}
use mtp.Duplex.Quiet.{msus, msus-append, other}
use mtp.Duplex.Pairing.{IsPaired, paired_lem}
use mtp.Duplex.Steady.{IsSteady, Fits, unit, heard, poll_transmit-steady, round_lem}
use mtp.Duplex.Live.{IsCarried, IsLive, poll-Fits, msus-heard, next_header, next_body, All-drop}
use mtp.Duplex.Held.{poll_transmit-held}
use mtp.Duplex.Pause.{IsPaused}
use mtp.Duplex.Relief.{local_busy_ended-IsSteady, resumes_lem}

-- Both links are in service again, and the first has sent its next MSU.
pub record IsRestored (q : List (ℕ × List ℕ)) (a b a' b' : Mtp2Link) : Type 0 where
  pub live : IsLive a' b'
  pub pending : a'.tx.pending ≡ drop 1 a.tx.pending
  pub queue : b'.tx.pending ≡ q
  pub told : msus b'.events ≡ msus b.events ++ take 1 a.tx.pending
  pub quiet : msus a'.events ≡ msus a.events

module _ (k : ℕ) (q : List (ℕ × List ℕ)) (a b : Mtp2Link) (p : IsPaused k q a b)
    (carried : All IsCarried a.tx.pending) (carried' : All IsCarried q) where
  abbrev c : Mtp2Link
  c = record a { local_busy = false }

  abbrev su : SignalUnit
  su = unit (next_header c) (next_body c)

  abbrev h : SuHeader
  h = header_for_control b

  steady : IsSteady c
  unfolding local_busy_ended
  steady = local_busy_ended-IsSteady a p.busy

  fits : Fits (next_body c)
  fits = poll-Fits c.tx b.rx _ p.there refl carried

  abbrev a' : Mtp2Link
  a' = tick (handle_su (fisu h) (poll_transmit c).0)

  abbrev b' : Mtp2Link
  b' = tick (handle_su su (poll_transmit b).0)

  exchange_lem : exchange (c, b) ≡ (a', b')
  unfolding exchange receive
  exchange_lem =
      ap₂ (λ x y. (tick (receive x (poll_transmit c).0), tick (receive y (poll_transmit b).0)))
        (ap (λ r. r.1) (poll_transmit-held k b p.held))
        (ap (λ r. r.1) (poll_transmit-steady c steady fits))

  restored_lem : IsRestored q a b a' b'
  unfolding header_for_control
  restored_lem =
      let ra = round_lem h TxBody.fisu c steady fits in
      let rb = resumes_lem (next_header c) (next_body c) k b p.held in
      let (paired, pending, told) = paired_lem a.tx b.rx p.there a.tx.pending refl in
      let fsn = (poll a.tx).1.fsn in
      let back : IsPaired b'.tx a'.rx =
        subst (λ t. IsPaired t a'.rx) (sym rb.tx) (subst (IsPaired _) (sym ra.rx) p.back) in
      let pending' : a'.tx.pending ≡ drop 1 a.tx.pending = ap (λ t. t.pending) ra.tx ∙ pending in
      let queue : b'.tx.pending ≡ q = ap (λ t. t.pending) rb.tx ∙ p.queue in
      record {
        live = record {
          steady = ra.steady;
          steady' = rb.steady;
          there = subst (λ t. IsPaired t b'.rx) (sym ra.tx) (subst (IsPaired _) (sym rb.rx) paired);
          back = back;
          carried = All-drop IsCarried _ _ pending' carried;
          carried' = rw queue carried';
        };
        pending = pending';
        queue = queue;
        told =
            ap msus rb.events
            ∙ msus-append _ (heard fsn (next_body c) b.rx)
            ∙ ap₂ (λ x y. x ++ y) (other b Event.remote_busy_ended refl)
                (msus-heard fsn (next_body c) b.rx ∙ told);
        quiet = ap msus (ra.events ∙ append-nil a.events);
      }

  pub exchange-IsRestored : let (x, y) = exchange (local_busy_ended a, b) in IsRestored q a b x y
  unfolding local_busy_ended
  exchange-IsRestored = subst (λ r. IsRestored q a b r.0 r.1) (sym exchange_lem) restored_lem
