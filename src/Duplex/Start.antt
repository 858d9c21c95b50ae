-- ===== src/Duplex/Start.antt =====
-- src/link.rs: a link that is started and has MSUs submitted to it.
use mtp.Base.{
  ℕ, suc, ◌<◌, ◌≤◌, ◌≡◌, refl, sym, ◌∙◌, ap, arith, subst, false, List, [], ◌∷◌, ◌++◌, All, length,
  append-nil, append_assoc, inl,
}
use mtp.SignalUnit.Unit.{max_msu_body}
use mtp.Retransmission.Method.{basic}
use mtp.Retransmission.Tx
use mtp.Retransmission.Rx
use mtp.Link.Types.{Mtp2State}
use mtp.Link.Config.{Mtp2Config}
use mtp.Link.Engine.{Mtp2Link, new, stop_all_timers}
use mtp.Link.Manage.{begin, submit_msu}
use mtp.Link.Manage
use mtp.Monitor.Suerm
use mtp.Monitor.Suerm.{reset}
use mtp.Link.Run.{Call, step, run, run-Inv}
use mtp.Duplex.Pairing.{IsPaired}
use mtp.Duplex.Live.{IsCarried}
use mtp.Duplex.Together.{IsRising}

-- MTP3 starts a link and submits MSUs to it.
abbrev pub submits : List (ℕ × List ℕ) → List Call
submits [] = []
submits ((sio, sif) ∷ ms) = Call.submit_msu sio sif ∷ submits ms

abbrev pub started : Mtp2Config → List (ℕ × List ℕ) → Mtp2Link
started c ms = run (Call.start ∷ submits ms) (new c)

submit_lem :
    (sio : ℕ) (sif : List ℕ) (l : Mtp2Link)
    → length sif < max_msu_body
    → step (Call.submit_msu sio sif) l
      ≡ record l { tx = record l.tx { pending = l.tx.pending ++ ((sio, sif) ∷ []) } }
unfolding step submit_msu Tx.submit
submit_lem sio sif l f = ground arith

run-submits :
    (ms : List (ℕ × List ℕ)) (l : Mtp2Link)
    → All IsCarried ms
    → run (submits ms) l ≡ record l { tx = record l.tx { pending = l.tx.pending ++ ms } }
unfolding run
run-submits [] l f =
    ap (λ k. record l { tx = record l.tx { pending = k } }) (sym (append-nil l.tx.pending))
run-submits ((sio, sif) ∷ ms) l f =
    let p = l.tx.pending ++ ((sio, sif) ∷ []) in
    ap (run (submits ms)) (submit_lem sio sif l f.0)
    ∙ run-submits ms (record l { tx = record l.tx { pending = p } }) f.1
    ∙ ap (λ k. record l { tx = record l.tx { pending = k } })
        (append_assoc l.tx.pending ((sio, sif) ∷ []) ms)

-- A configuration of the Basic method and normal alignment, with `n + 1` ticks of proving, with more
-- than `d` of T1, and enough of T3, T7 and the SUERM's threshold.
pub record IsNormal (n d : ℕ) (c : Mtp2Config) : Type 0 where
  pub method : c.method ≡ basic
  pub normal : c.emergency ≡ false
  pub proving : c.t4_proving_normal ≡ suc n
  pub aligned : 2 ≤ c.t3_aligned
  pub ready : d < c.t1_aligned_ready
  pub delay : 2 ≤ c.t7_excessive_delay
  pub bears : 0 < c.suerm_threshold

start_fields :
    (n d : ℕ) (c : Mtp2Config)
    → IsNormal n d c
    → let l = step Call.start (new c) in
      (l.state ≡ Mtp2State.not_aligned)
      × (l.emergency ≡ false)
      × (l.local_processor_outage ≡ false)
      × (l.local_busy ≡ false)
      × (0 < l.suerm.threshold)
      × (l.config ≡ c)
      × (l.tx ≡ Tx.new basic)
      × (l.rx ≡ Rx.new basic)
      × (l.events ≡ [])
unfolding step new Manage.start begin stop_all_timers reset Suerm.new
start_fields n d c h = ground (arith, h.normal, h.bears, h.method)

abbrev queue : List (ℕ × List ℕ) → Tx.TxControl → Tx.TxControl
queue ms t = record t { pending = t.pending ++ ms }

-- What a started link is.
pub record Begins (n d : ℕ) (ms : List (ℕ × List ℕ)) (l : Mtp2Link) : Type 0 where
  pub rising : IsRising n d l
  pub state : l.state ≡ Mtp2State.not_aligned
  pub tx : l.tx ≡ record (Tx.new basic) { pending = ms }
  pub rx : l.rx ≡ Rx.new basic
  pub events : l.events ≡ []

pub started-Begins :
    (n d : ℕ) (c : Mtp2Config) (ms : List (ℕ × List ℕ))
    → IsNormal n d c
    → All IsCarried ms
    → Begins n d ms (started c ms)
started-Begins n d c ms h f =
    let l = step Call.start (new c) in
    let (state, emergency, local, busy, bears, config, tx, rx, events) = start_fields n d c h in
    let queued = record l { tx = record l.tx { pending = l.tx.pending ++ ms } } in
    let e : started c ms ≡ queued = unfold run in run-submits ms l f in
    record {
      rising = record {
        inv = run-Inv c (Call.start ∷ submits ms);
        normal = ap (λ k. k.emergency) e ∙ emergency;
        local = ap (λ k. k.local_processor_outage) e ∙ local;
        free = ap (λ k. k.local_busy) e ∙ busy;
        bears = rw e bears;
        proving =
            ap (λ k. k.config.t4_proving_normal) e
            ∙ ap (λ k. k.t4_proving_normal) config
            ∙ h.proving;
        aligned = rw e (rw config h.aligned);
        ready = rw e (rw config h.ready);
        delay = rw e (rw config h.delay);
      };
      state = ap (λ k. k.state) e ∙ state;
      tx = ap (λ k. k.tx) e ∙ ap (queue ms) tx ∙ (unfold Tx.new in refl);
      rx = ap (λ k. k.rx) e ∙ rx;
      events = ap (λ k. k.events) e ∙ events;
    }

pub Begins-IsPaired :
    (n n' d : ℕ) (ms ns : List (ℕ × List ℕ)) (a b : Mtp2Link)
    → Begins n d ms a
    → Begins n' d ns b
    → IsPaired a.tx b.rx
Begins-IsPaired n n' d ms ns a b s t =
    subst (λ x. IsPaired x b.rx) (sym s.tx)
      (subst (IsPaired _) (sym t.rx) (
        unfold Tx.new Rx.new in
        record {
          method = refl;
          cursor = refl;
          outstanding = inl refl;
          meets = refl;
          small = omega arith;
          bits = refl;
        }))
