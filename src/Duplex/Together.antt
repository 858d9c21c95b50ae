-- ===== src/Duplex/Together.antt =====
-- src/link.rs: two started links come up together.
use mtp.Base.{ℕ, zero, suc, ◌+◌, arith, ◌<◌, ◌≤◌, ◌≡◌, refl, sym, ◌∙◌, ap, subst, false, some}
use mtp.SignalUnit.Unit.{SignalUnit}
use mtp.Link.Engine.{Mtp2Link}
use mtp.Link.Outbound.{poll_transmit}
use mtp.Link.Inbound.{handle_su}
use mtp.Link.Time.{tick}
use mtp.Link.Invariant.{Inv}
use mtp.Link.Run.{Call, step, step-Inv}
use mtp.Link.Emergency.{receive, exchange, exchanges}
use mtp.Duplex.Rise.{Keeps}

-- A link under a normal alignment with `n + 1` ticks of proving, and with more than `d` of T1.
pub record IsRising (n d : ℕ) (l : Mtp2Link) : Type 0 where
  pub inv : Inv l
  pub normal : l.emergency ≡ false
  pub local : l.local_processor_outage ≡ false
  pub free : l.local_busy ≡ false
  pub bears : 0 < l.suerm.threshold
  pub proving : l.config.t4_proving_normal ≡ suc n
  pub aligned : 2 ≤ l.config.t3_aligned
  pub ready : d < l.config.t1_aligned_ready
  pub delay : 2 ≤ l.config.t7_excessive_delay

Keeps-IsRising :
    (n d : ℕ) (l l' : Mtp2Link) → Inv l' → Keeps l l' → IsRising n d l → IsRising n d l'
Keeps-IsRising n d l l' v k r = record {
  inv = v;
  normal = k.emergency ∙ r.normal;
  local = k.outage ∙ r.local;
  free = k.busy ∙ r.free;
  bears = rw k.threshold r.bears;
  proving = ap (λ c. c.t4_proving_normal) k.config ∙ r.proving;
  aligned = rw k.config r.aligned;
  ready = rw k.config r.ready;
  delay = rw k.config r.delay;
}

pub Keeps-trans : (l m l' : Mtp2Link) → Keeps l m → Keeps m l' → Keeps l l'
Keeps-trans l m l' i j = record {
  config = j.config ∙ i.config;
  tx = j.tx ∙ i.tx;
  rx = j.rx ∙ i.rx;
  emergency = j.emergency ∙ i.emergency;
  outage = j.outage ∙ i.outage;
  busy = j.busy ∙ i.busy;
  threshold = j.threshold ∙ i.threshold;
  events = j.events ∙ i.events;
}

-- A link in a phase `P` of its rise, on the way from `o`.
pub record At (n d : ℕ) (P : Mtp2Link → Type 0) (o l : Mtp2Link) : Type 0 where
  pub rising : IsRising n d l
  pub phase : P l
  pub kept : Keeps o l

pub exchange-sends :
    (a b : Mtp2Link) (x y : SignalUnit)
    → poll_transmit a ≡ (a, some x)
    → poll_transmit b ≡ (b, some y)
    → exchange (a, b) ≡ (tick (handle_su y a), tick (handle_su x b))
unfolding exchange receive
exchange-sends a b x y e f = rw (e, f) refl

pub exchanges_add :
    (m k : ℕ) (p : Mtp2Link × Mtp2Link) → exchanges (m + k) p ≡ exchanges k (exchanges m p)
unfolding exchanges
exchanges_add zero k p = ap (λ n. exchanges n p) (let e : 0 + k ≡ k = omega arith in e)
exchanges_add (suc m) k p =
    ap (λ n. exchanges n p) (let e : suc m + k ≡ suc (m + k) = omega arith in e)
    ∙ exchanges_add m k (exchange p)

-- A link in phase `P` sends `unit`, and what its peer sends takes it to the phase `Q`.
pub record Phase (n d : ℕ) (P Q : Mtp2Link → Type 0) (unit peer : Mtp2Link → SignalUnit)
    : Type 0 where
  pub sends : (l : Mtp2Link) → IsRising n d l → P l → poll_transmit l ≡ (l, some (unit l))
  pub moves :
      (l p : Mtp2Link)
      → IsRising n d l
      → P l
      → let l' = tick (handle_su (peer p) l) in Q l' × Keeps l l'

advance :
    (n d : ℕ) (P Q : Mtp2Link → Type 0) (unit peer : Mtp2Link → SignalUnit)
    → Phase n d P Q unit peer
    → (o l p : Mtp2Link) → At n d P o l
    → At n d Q o (tick (handle_su (peer p) l))
advance n d P Q unit peer f o l p t =
    let m = handle_su (peer p) l in
    let (phase, kept) = f.moves l p t.rising t.phase in
    let v : Inv m = unfold step in step-Inv (Call.handle_su (peer p)) l t.rising.inv in
    record {
      rising = Keeps-IsRising n d l (tick m) (unfold step in step-Inv Call.tick m v) kept t.rising;
      phase = phase;
      kept = Keeps-trans o l (tick m) t.kept kept;
    }

pub together :
    (n n' d : ℕ) (P Q P' Q' : Mtp2Link → Type 0) (unit unit' : Mtp2Link → SignalUnit)
    → Phase n d P Q unit unit'
    → Phase n' d P' Q' unit' unit
    → (o o' a b : Mtp2Link) → At n d P o a
    → At n' d P' o' b
    → At n d Q o (exchange (a, b)).0 × At n' d Q' o' (exchange (a, b)).1
together n n' d P Q P' Q' unit unit' f g o o' a b s t =
    subst (λ p. At n d Q o p.0 × At n' d Q' o' p.1)
      (sym (
        exchange-sends a b (unit a) (unit' b) (f.sends a s.rising s.phase)
          (g.sends b t.rising t.phase)))
      (advance n d P Q unit unit' f o a b s, advance n' d P' Q' unit' unit g o' b a t)
