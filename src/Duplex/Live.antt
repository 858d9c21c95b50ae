-- ===== src/Duplex/Live.antt =====
-- src/link.rs: two links in service that exchange a unit in each tick.
use mtp.Base.{
  ℕ, zero, suc, ◌<◌, ◌≡◌, refl, sym, ◌∙◌, ap, ap₂, subst, List, [], ◌∷◌, ◌++◌, length, take, drop,
  append-nil, append_assoc, All,
}
use mtp.SignalUnit.Header.{SuHeader}
use mtp.SignalUnit.Unit.{max_msu_body}
use mtp.Retransmission.Tx.{TxControl, TxBody, poll}
use mtp.Retransmission.Rx.{
  RxControl, RxOutcome, accepted, discarded, retransmission_requested, on_msu,
}
use mtp.Retransmission.Channel.{delivered_by}
use mtp.Link.Engine.{Mtp2Link}
use mtp.Link.Outbound.{frame_header, poll_transmit}
use mtp.Link.Inbound.{handle_su}
use mtp.Link.Time.{tick}
use mtp.Link.Reception.{tell}
use mtp.Link.Emergency.{receive, exchange, exchanges}
use mtp.Duplex.Quiet.{msus, msus-append}
use mtp.Duplex.Pairing.{IsPaired, taking_msus, poll-idle, poll-next, paired_lem}
use mtp.Duplex.Steady.{IsSteady, Fits, unit, heard, poll_transmit-steady, Rounds, round_lem}

-- An MSU that a signal unit can carry.
abbrev pub IsCarried : ℕ × List ℕ → Type 0
IsCarried p = length p.1 < max_msu_body

-- Two links in service, each of which has received all that the other has sent.
pub record IsLive (a b : Mtp2Link) : Type 0 where
  pub steady : IsSteady a
  pub steady' : IsSteady b
  pub there : IsPaired a.tx b.rx
  pub back : IsPaired b.tx a.rx
  pub carried : All IsCarried a.tx.pending
  pub carried' : All IsCarried b.tx.pending

pub poll-Fits :
    (t : TxControl) (r : RxControl) (q : List (ℕ × List ℕ))
    → IsPaired t r
    → t.pending ≡ q
    → All IsCarried q
    → Fits (poll t).1.body
poll-Fits t r [] p e c = rw (poll-idle t r p e) tt
poll-Fits t r ((sio, sif) ∷ rest) p e c = rw (poll-next t r p sio sif rest e) c.0

msus-tell : (o : RxOutcome) → msus (tell o) ≡ delivered_by o []
unfolding msus
msus-tell (accepted sio sif) = refl
msus-tell discarded = refl
msus-tell retransmission_requested = refl

pub msus-heard : (fsn : ℕ) (b : TxBody) (r : RxControl) → msus (heard fsn b r) ≡ taking_msus fsn b r
msus-heard fsn TxBody.fisu r = unfold msus in refl
msus-heard fsn (TxBody.msu sio sif) r = msus-tell (on_msu fsn sio sif r).1

-- The header with which a link sends its next frame, and the frame.
abbrev pub next_header : Mtp2Link → SuHeader
next_header l = frame_header l.rx (poll l.tx).1

abbrev pub next_body : Mtp2Link → TxBody
next_body l = (poll l.tx).1.body

exchange-units :
    (a b : Mtp2Link)
    → IsLive a b
    → exchange (a, b) ≡ (
      tick (handle_su (unit (next_header b) (next_body b)) (poll_transmit a).0),
      tick (handle_su (unit (next_header a) (next_body a)) (poll_transmit b).0),
    )
unfolding exchange receive
exchange-units a b v =
    let from_a =
      ap (λ r. r.1)
        (poll_transmit-steady a v.steady (poll-Fits a.tx b.rx _ v.there refl v.carried)) in
    let from_b =
      ap (λ r. r.1)
        (poll_transmit-steady b v.steady' (poll-Fits b.tx a.rx _ v.back refl v.carried')) in
    ap₂ (λ x y. (tick (receive x (poll_transmit a).0), tick (receive y (poll_transmit b).0))) from_b
      from_a

-- One direction: the next pending MSU arrives.
record Passes (a b a' b' : Mtp2Link) : Type 0 where
  pub paired : IsPaired a'.tx b'.rx
  pub pending : a'.tx.pending ≡ drop 1 a.tx.pending
  pub told : msus b'.events ≡ msus b.events ++ take 1 a.tx.pending

passes_lem :
    (a b a' b' : Mtp2Link)
    → IsPaired a.tx b.rx
    → Rounds (next_header b) (next_body b) a a'
    → Rounds (next_header a) (next_body a) b b'
    → Passes a b a' b'
passes_lem a b a' b' p ra rb =
    let (paired, pending, told) = paired_lem a.tx b.rx p a.tx.pending refl in
    let fsn = (poll a.tx).1.fsn in
    record {
      paired = subst (λ t. IsPaired t b'.rx) (sym ra.tx) (subst (IsPaired _) (sym rb.rx) paired);
      pending = ap (λ t. t.pending) ra.tx ∙ pending;
      told =
          ap msus rb.events
          ∙ msus-append b.events (heard fsn (next_body a) b.rx)
          ∙ ap (λ k. msus b.events ++ k) (msus-heard fsn (next_body a) b.rx ∙ told);
    }

pub All-drop {ℓ κ} :
    {A : Type ℓ} (P : A → Type κ) (xs ys : List A) → ys ≡ drop 1 xs → All P xs → All P ys
All-drop P [] ys e h = rw e tt
All-drop P (x ∷ xs) ys e h = rw e h.1

exchange-Passes :
    (a b : Mtp2Link)
    → IsLive a b
    → let (a', b') = exchange (a, b) in IsLive a' b' × Passes a b a' b' × Passes b a b' a'
exchange-Passes a b v =
    let ra =
      round_lem (next_header b) (next_body b) a v.steady
        (poll-Fits a.tx b.rx _ v.there refl v.carried) in
    let rb =
      round_lem (next_header a) (next_body a) b v.steady'
        (poll-Fits b.tx a.rx _ v.back refl v.carried') in
    let there = passes_lem a b _ _ v.there ra rb in
    let back = passes_lem b a _ _ v.back rb ra in
    subst (λ p. IsLive p.0 p.1 × Passes a b p.0 p.1 × Passes b a p.1 p.0)
      (sym (exchange-units a b v))
      (
        record {
          steady = ra.steady;
          steady' = rb.steady;
          there = there.paired;
          back = back.paired;
          carried = All-drop IsCarried _ _ there.pending v.carried;
          carried' = All-drop IsCarried _ _ back.pending v.carried';
        },
        there,
        back,
      )

take-nil {ℓ} : {A : Type ℓ} (n : ℕ) → take {A = A} n [] ≡ []
take-nil zero = refl
take-nil (suc n) = refl

-- What is taken off one at a time.
pub more {ℓ} :
    {A : Type ℓ} (n : ℕ) (told told' pending pending' rest : List A)
    → told' ≡ told ++ take 1 pending
    → pending' ≡ drop 1 pending
    → rest ≡ told' ++ take n pending'
    → rest ≡ told ++ take (suc n) pending
more n told told' [] pending' rest e f g =
    g
    ∙ ap₂ (λ x y. x ++ take n y) e f
    ∙ append_assoc told [] (take n [])
    ∙ ap (λ k. told ++ k) (take-nil n)
more n told told' (p ∷ ps) pending' rest e f g =
    g ∙ ap₂ (λ x y. x ++ take n y) e f ∙ append_assoc told (p ∷ []) (take n ps)

pub exchanges_deliver :
    (n : ℕ) (a b : Mtp2Link)
    → IsLive a b
    → let (a', b') = exchanges n (a, b) in
      IsLive a' b'
      × (msus b'.events ≡ msus b.events ++ take n a.tx.pending)
      × (msus a'.events ≡ msus a.events ++ take n b.tx.pending)
unfolding exchanges
exchanges_deliver zero a b v =
    (v, sym (append-nil (msus b.events)), sym (append-nil (msus a.events)))
exchanges_deliver (suc n) a b v =
    let (v', there, back) = exchange-Passes a b v in
    let (ends, told, told') = exchanges_deliver n (exchange (a, b)).0 (exchange (a, b)).1 v' in
    (
      ends,
      more n _ _ a.tx.pending _ _ there.told there.pending told,
      more n _ _ b.tx.pending _ _ back.told back.pending told',
    )
