-- ===== src/Duplex/Ascent.antt =====
-- src/link.rs: the phases of an alignment of two links.
use mtp.Base.{ℕ, zero, suc, ◌+◌, ◌-◌, arith, ◌<◌, ◌≡◌, inl, inr, refl, sym, ◌∙◌, ap, subst, some}
use mtp.SignalUnit.Unit.{SignalUnit, fisu}
use mtp.Link.Types.{Mtp2State}
use mtp.Link.Engine.{Mtp2Link}
use mtp.Link.Outbound.{header_for_control}
use mtp.Link.Inbound.{handle_su}
use mtp.Link.Time.{tick}
use mtp.Link.Emergency.{exchange, exchanges}
use mtp.Duplex.Rise.{
  Keeps, sio, sin, sends-sio, sends-sin, sends-fisu, Left, aligns, proves, continues, outlasts,
  waits,
}
use mtp.Duplex.Together.{IsRising, At, Phase, together, exchanges_add}

abbrev NotAligned : Mtp2Link → Type 0
NotAligned l = l.state ≡ Mtp2State.not_aligned

abbrev Aligned : Mtp2Link → Type 0
Aligned l = l.state ≡ Mtp2State.aligned

-- Ready, with more than `k` ticks of T1 left.
abbrev Waits : ℕ → Mtp2Link → Type 0
Waits k l = (l.state ≡ Mtp2State.aligned_ready) × ((r : ℕ) × (l.t1 ≡ some r) × (k < r))

abbrev pub Ready : Mtp2Link → Type 0
Ready l = l.state ≡ Mtp2State.aligned_ready

abbrev fill : Mtp2Link → SignalUnit
fill l = fisu (header_for_control l)

aligning : (n d : ℕ) → Phase n d NotAligned Aligned sio sio
aligning n d = record {
  sends = λ l r s. sends-sio l s;
  moves = λ l p r s. aligns (header_for_control p) l r.inv s r.aligned;
}

proving : (n d : ℕ) → Phase n d Aligned (Left n) sin sin
proving n d = record {
  sends = λ l r s. sends-sin l (inl s) r.normal;
  moves = λ l p r s. proves (header_for_control p) l n r.inv s r.normal r.local r.proving;
}

leaving : (n d k : ℕ) → Phase n d (Left (suc k)) (Left k) sin sin
leaving n d k = record {
  sends = λ l r s. sends-sin l (inr s.0) r.normal;
  moves = λ l p r s. continues (header_for_control p) l k r.inv s r.local;
}

-- The one whose proving is longer goes on, and the other waits.
lasting : (n d k : ℕ) → Phase n d (Left (suc k)) (Left k) sin fill
lasting n d k = record {
  sends = λ l r s. sends-sin l (inr s.0) r.normal;
  moves = λ l p r s. outlasts (header_for_control p) l k r.inv s r.local;
}

waits_lem :
    (n d k : ℕ) (l p : Mtp2Link)
    → IsRising n d l
    → Waits (suc k) l
    → let l' = tick (handle_su (sin p) l) in Waits k l' × Keeps l l'
waits_lem n d k l p r (s, (j, t, more)) =
    let e : j ≡ 1 + (j - 1) = omega arith in
    let (state, t1, kept) =
      waits (header_for_control p) l (j - 1) r.inv s (t ∙ ap some e) (omega arith) r.normal in
    ((state, (j - 1, t1, omega arith)), kept)

waiting : (n d k : ℕ) → Phase n d (Waits (suc k)) (Waits k) fill sin
waiting n d k = record {
  sends = λ l r s. sends-fisu l s.0;
  moves = λ l p r s. waits_lem n d k l p r s;
}

left_lem :
    (n n' d k : ℕ) (o o' a b : Mtp2Link)
    → At n d (Left k) o a
    → At n' d (Left (k + d)) o' b
    → At n d (Left zero) o (exchanges k (a, b)).0 × At n' d (Left d) o' (exchanges k (a, b)).1
unfolding exchanges
left_lem n n' d zero o o' a b s t =
    (s, subst (λ j. At n' d (Left j) o' b) (let e : 0 + d ≡ d = omega arith in e) t)
left_lem n n' d (suc k) o o' a b s t =
    let e : suc k + d ≡ suc (k + d) = omega arith in
    let (s', t') =
      together n n' d (Left (suc k)) (Left k) (Left (suc (k + d))) (Left (k + d)) sin sin
        (leaving n d k) (leaving n' d (k + d)) o o' a b s
        (subst (λ j. At n' d (Left j) o' b) e t) in
    left_lem n n' d k o o' (exchange (a, b)).0 (exchange (a, b)).1 s' t'

wait_lem :
    (n n' d k : ℕ) (o o' a b : Mtp2Link)
    → At n d (Waits k) o a
    → At n' d (Left k) o' b
    → At n d Ready o (exchanges k (a, b)).0 × At n' d Ready o' (exchanges k (a, b)).1
unfolding exchanges
wait_lem n n' d zero o o' a b s t = (
  record { rising = s.rising; phase = s.phase.0; kept = s.kept },
  record { rising = t.rising; phase = t.phase.0; kept = t.kept },
)
wait_lem n n' d (suc k) o o' a b s t =
    let (s', t') =
      together n n' d (Waits (suc k)) (Waits k) (Left (suc k)) (Left k) fill sin (waiting n d k)
        (lasting n' d k) o o' a b s t in
    wait_lem n n' d k o o' (exchange (a, b)).0 (exchange (a, b)).1 s' t'

here_lem : (n d : ℕ) (l : Mtp2Link) → IsRising n d l → NotAligned l → At n d NotAligned l l
here_lem n d l r s = record {
  rising = r;
  phase = s;
  kept = record {
    config = refl;
    tx = refl;
    rx = refl;
    emergency = refl;
    outage = refl;
    busy = refl;
    threshold = refl;
    events = refl;
  };
}

-- What two links that were not aligned are after the exchanges of the alignment.
pub exchanges-Ready :
    (n d : ℕ) (a b : Mtp2Link)
    → IsRising n d a
    → IsRising (n + d) d b
    → a.state ≡ Mtp2State.not_aligned
    → b.state ≡ Mtp2State.not_aligned
    → let p = exchanges (suc (suc (n + d))) (a, b) in At n d Ready a p.0 × At (n + d) d Ready b p.1
unfolding exchanges
exchanges-Ready n d a b r r' s s' =
    let n' = n + d in
    let (x, y) =
      together n n' d NotAligned Aligned NotAligned Aligned sio sio (aligning n d) (aligning n' d) a
        b a b (here_lem n d a r s) (here_lem n' d b r' s') in
    let (a1, b1) = exchange (a, b) in
    let (x', y') =
      together n n' d Aligned (Left n) Aligned (Left n') sin sin (proving n d) (proving n' d) a b a1
        b1 x y in
    let (a2, b2) = exchange (a1, b1) in
    let (u, v) = left_lem n n' d n a b a2 b2 x' y' in
    let (a3, b3) = exchanges n (a2, b2) in
    let w : At n d (Waits d) a a3 = record {
      rising = u.rising;
      phase = (u.phase.0, (_, u.phase.1, u.rising.ready));
      kept = u.kept;
    } in
    subst (λ p. At n d Ready a p.0 × At n' d Ready b p.1) (sym (exchanges_add n d (a2, b2)))
      (wait_lem n n' d d a b a3 b3 w v)
