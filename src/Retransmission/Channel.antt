-- ===== src/Retransmission/Channel.antt =====
-- src/retransmission.rs: a transmit side and a receive side, as src/link.rs joins two links over a
-- span: frames go one way and acknowledgements the other, in order, and either may be lost. The
-- span itself is the environment's.
use mtp.Base.{ℕ, ◌≤◌, ◌≡◌, Bool, List, [], ◌∷◌, ◌++◌}
use mtp.Retransmission.Method.{RetransmissionMethod}
use mtp.Retransmission.Tx.{TxControl, TxFrame, TxBody, unacked_len, submit, poll, on_ack}
use mtp.Retransmission.Tx
use mtp.Retransmission.Rx.{RxControl, RxOutcome, on_msu}
use mtp.Retransmission.Rx

-- The two controllers, what is under way between them, and what MTP3 has seen at each end.
pub record Span : Type 0 where
  pub tx : TxControl
  pub rx : RxControl
  pub forward : List TxFrame
  pub backward : List (ℕ × Bool)
  pub submitted : List (ℕ × List ℕ)
  pub delivered : List (ℕ × List ℕ)

unfoldable pub opened : RetransmissionMethod → Span
opened m = record {
  tx = Tx.new m;
  rx = Rx.new m;
  forward = [];
  backward = [];
  submitted = [];
  delivered = [];
}

-- An accepted MSU goes to MTP3.
abbrev pub delivered_by : RxOutcome → List (ℕ × List ℕ) → List (ℕ × List ℕ)
delivered_by (RxOutcome.accepted sio sif) ms = ms ++ ((sio, sif) ∷ [])
delivered_by _ ms = ms

abbrev pub receive_body : ℕ → TxBody → Span → Span
receive_body fsn TxBody.fisu s = s
receive_body fsn (TxBody.msu sio sif) s =
    let r = on_msu fsn sio sif s.rx in
    record s { rx = r.0; delivered = delivered_by r.1 s.delivered }

-- A step of either side or of the span. No more than 127 MSUs may be outstanding, which a 7-bit
-- number needs; under PCR a threshold N1 of at most 127 sees to it.
pub data Step (s : Span) : Span → Type 0 where
  submits :
      (sio : ℕ) (sif : List ℕ)
      → Step s (record s { tx = submit sio sif s.tx; submitted = s.submitted ++ ((sio, sif) ∷ []) })
  transmits :
      unacked_len (poll s.tx).0 ≤ 127
      → Step s (record s { tx = (poll s.tx).0; forward = s.forward ++ ((poll s.tx).1 ∷ []) })
  loses_frame :
      (xs ys : List TxFrame) (f : TxFrame)
      → s.forward ≡ xs ++ (f ∷ ys)
      → Step s (record s { forward = xs ++ ys })
  receives :
      (f : TxFrame) (fs : List TxFrame)
      → s.forward ≡ f ∷ fs
      → Step s (receive_body f.fsn f.body (record s { forward = fs }))
  acknowledges :
      Step s (record s { backward = s.backward ++ ((s.rx.last_received, s.rx.bib) ∷ []) })
  loses_ack :
      (xs ys : List (ℕ × Bool)) (a : ℕ × Bool)
      → s.backward ≡ xs ++ (a ∷ ys)
      → Step s (record s { backward = xs ++ ys })
  takes_ack :
      (bsn : ℕ) (bib : Bool) (acks : List (ℕ × Bool))
      → s.backward ≡ (bsn, bib) ∷ acks
      → Step s (record s { tx = on_ack bsn bib s.tx; backward = acks })

pub data Reach (s : Span) : Span → Type 0 where
  here : Reach s s
  next : {t u : Span} → Reach s t → Step t u → Reach s u
