-- ===== src/Duplex/Up.antt =====
-- src/link.rs: two links from their start until they deliver what is submitted.
use mtp.Base.{ℕ, suc, ◌+◌, ◌≡◌, refl, sym, ◌∙◌, ap, ap₂, arith, subst, List, [], ◌++◌, take, All}
use mtp.Link.Types.{Mtp2State}
use mtp.Link.Config.{Mtp2Config}
use mtp.Link.Emergency.{exchange, exchanges}
use mtp.Duplex.Quiet.{msus}
use mtp.Duplex.Live.{IsCarried, exchanges_deliver}
use mtp.Duplex.Ascent.{exchanges-Ready}
use mtp.Duplex.Together.{exchanges_add}
use mtp.Duplex.Enter.{Meets, Keeps-Meets, ready, exchange-Comes}
use mtp.Duplex.Start.{started, IsNormal, started-Begins, Begins-IsPaired}

-- Two new links of the Basic method and normal alignment, with T3 and T7 of two ticks or more and a
-- positive SUERM threshold, are started and given MSUs that fit. The T4 of the first, of at least one
-- tick, is that of the second or shorter, and T1 is longer than the difference. If they exchange a
-- unit in each tick, they are both in service after the longer T4 and two ticks more, and after `k`
-- further ticks each has reported the first `k` MSUs that were submitted to the other, or all of them
-- if there are fewer, in order and no others.
pub links_come_up :
    (n d k : ℕ) (ca cb : Mtp2Config) (ms ns : List (ℕ × List ℕ))
    → IsNormal n d ca
    → IsNormal (n + d) d cb
    → All IsCarried ms
    → All IsCarried ns
    → let (a, b) = exchanges (n + d + 3 + k) (started ca ms, started cb ns) in
      (a.state ≡ Mtp2State.in_service)
      × (b.state ≡ Mtp2State.in_service)
      × (msus b.events ≡ take k ms)
      × (msus a.events ≡ take k ns)
links_come_up n d k ca cb ms ns ha hb f g =
    let la = started ca ms in
    let lb = started cb ns in
    let s = started-Begins n d ca ms ha f in
    let t = started-Begins (n + d) d cb ns hb g in
    let m : Meets la lb = record {
      there = Begins-IsPaired n (n + d) d ms ns la lb s t;
      back = Begins-IsPaired (n + d) n d ns ms lb la t s;
      carried = rw s.tx f;
      carried' = rw t.tx g;
    } in
    let (a, b) = exchanges (suc (suc (n + d))) (la, lb) in
    let (x, y) = exchanges-Ready n d la lb s.rising t.rising s.state t.state in
    let c =
      exchange-Comes a b (ready n d la a x) (ready (n + d) d lb b y)
        (Keeps-Meets la lb a b x.kept y.kept m) in
    let (a', b') = exchange (a, b) in
    let (live, told, told') = exchanges_deliver k a' b' c.live in
    let split : exchanges (n + d + 3 + k) (la, lb) ≡ exchanges k (a', b') =
      ap (λ j. exchanges j (la, lb))
        (let e : n + d + 3 + k ≡ suc (suc (n + d)) + suc k = omega arith in e)
      ∙ exchanges_add (suc (suc (n + d))) (suc k) (la, lb)
      ∙ (unfold exchanges in refl) in
    let quiet_a : msus a'.events ≡ [] =
      c.told ∙ ap msus (x.kept.events ∙ s.events) ∙ (unfold msus in refl) in
    let quiet_b : msus b'.events ≡ [] =
      c.told' ∙ ap msus (y.kept.events ∙ t.events) ∙ (unfold msus in refl) in
    let queue_a : a'.tx.pending ≡ ms = c.pending ∙ ap (λ q. q.pending) (x.kept.tx ∙ s.tx) in
    let queue_b : b'.tx.pending ≡ ns = c.pending' ∙ ap (λ q. q.pending) (y.kept.tx ∙ t.tx) in
    subst
      (λ p.
        (p.0.state ≡ Mtp2State.in_service)
        × (p.1.state ≡ Mtp2State.in_service)
        × (msus p.1.events ≡ take k ms)
        × (msus p.0.events ≡ take k ns))
      (sym split)
      (
        live.steady.serving.state,
        live.steady'.serving.state,
        told ∙ ap₂ (λ es ps. es ++ take k ps) quiet_b queue_a,
        told' ∙ ap₂ (λ es ps. es ++ take k ps) quiet_a queue_b,
      )
