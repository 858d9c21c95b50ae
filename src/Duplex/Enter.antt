-- ===== src/Duplex/Enter.antt =====
-- src/link.rs: two aligned links that go into service.
use mtp.Base.{ℕ, ◌≡◌, sym, ◌∙◌, ap, subst, All}
use mtp.SignalUnit.Unit.{fisu}
use mtp.Retransmission.Tx
use mtp.Link.Engine.{Mtp2Link}
use mtp.Link.Outbound.{header_for_control}
use mtp.Link.Inbound.{handle_su}
use mtp.Link.Time.{tick}
use mtp.Link.Emergency.{exchange}
use mtp.Duplex.Quiet.{msus}
use mtp.Duplex.Pairing.{IsPaired, acked-IsPaired}
use mtp.Duplex.Live.{IsCarried, IsLive}
use mtp.Duplex.Rise.{Keeps, sends-fisu}
use mtp.Duplex.Service.{IsReady, Serves, serves_lem}
use mtp.Duplex.Ascent.{Ready}
use mtp.Duplex.Together.{At, exchange-sends}

-- Two links whose sides fit.
pub record Meets (a b : Mtp2Link) : Type 0 where
  pub there : IsPaired a.tx b.rx
  pub back : IsPaired b.tx a.rx
  pub carried : All IsCarried a.tx.pending
  pub carried' : All IsCarried b.tx.pending

pub Keeps-Meets : (a b a' b' : Mtp2Link) → Keeps a a' → Keeps b b' → Meets a b → Meets a' b'
Keeps-Meets a b a' b' k j m = record {
  there = subst (λ t. IsPaired t b'.rx) (sym k.tx) (subst (IsPaired _) (sym j.rx) m.there);
  back = subst (λ t. IsPaired t a'.rx) (sym j.tx) (subst (IsPaired _) (sym k.rx) m.back);
  carried = rw k.tx m.carried;
  carried' = rw j.tx m.carried';
}

pub ready : (n d : ℕ) (o l : Mtp2Link) → At n d Ready o l → IsReady l
ready n d o l t = record {
  inv = t.rising.inv;
  state = t.phase;
  free = t.rising.free;
  delay = t.rising.delay;
  bears = t.rising.bears;
}

-- Into service, with the MSUs that were pending.
pub record Comes (a b a' b' : Mtp2Link) : Type 0 where
  pub live : IsLive a' b'
  pub pending : a'.tx.pending ≡ a.tx.pending
  pub pending' : b'.tx.pending ≡ b.tx.pending
  pub told : msus a'.events ≡ msus a.events
  pub told' : msus b'.events ≡ msus b.events

pub exchange-Comes :
    (a b : Mtp2Link)
    → IsReady a
    → IsReady b
    → Meets a b
    → Comes a b (exchange (a, b)).0 (exchange (a, b)).1
exchange-Comes a b r r' m =
    let ha = header_for_control a in
    let hb = header_for_control b in
    let a' = tick (handle_su (fisu hb) a) in
    let b' = tick (handle_su (fisu ha) b) in
    let s : Serves hb a a' = serves_lem hb a r in
    let s' : Serves ha b b' = serves_lem ha b r' in
    let (there, pending) = acked-IsPaired a.tx b.rx m.there in
    let (back, pending') = acked-IsPaired b.tx a.rx m.back in
    let tx : a'.tx ≡ Tx.on_ack b.rx.last_received b.rx.bib a.tx =
      unfold header_for_control in s.tx in
    let tx' : b'.tx ≡ Tx.on_ack a.rx.last_received a.rx.bib b.tx =
      unfold header_for_control in s'.tx in
    let same = ap (λ t. t.pending) tx ∙ pending in
    let same' = ap (λ t. t.pending) tx' ∙ pending' in
    subst (λ p. Comes a b p.0 p.1)
      (sym (exchange-sends a b (fisu ha) (fisu hb) (sends-fisu a r.state) (sends-fisu b r'.state)))
      (record {
        live = record {
          steady = s.steady;
          steady' = s'.steady;
          there = subst (λ t. IsPaired t b'.rx) (sym tx) (subst (IsPaired _) (sym s'.rx) there);
          back = subst (λ t. IsPaired t a'.rx) (sym tx') (subst (IsPaired _) (sym s.rx) back);
          carried = rw same m.carried;
          carried' = rw same' m.carried';
        };
        pending = same;
        pending' = same';
        told = s.told;
        told' = s'.told;
      })
