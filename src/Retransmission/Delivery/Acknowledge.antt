-- ===== src/Retransmission/Delivery/Acknowledge.antt =====
-- src/retransmission.rs: acknowledgements keep the invariant of a span.
use native.Mathlib.Decide.{dec_le}
use mtp.Base.{
  length-drop, ℕ, ◌+◌, ◌-◌, ◌≤◌, ◌<◌, ◌≡◌, refl, ◌∙◌, ap, arith, Bool, List, [], ◌∷◌, ◌++◌, drop,
}
use mtp.Retransmission.Tx.{TxControl, unacked_len, free, on_ack}
use mtp.Retransmission.Numbering.{IsNumbered, before, IsNumbered-drop, free-drop, free_stalls}
use mtp.Retransmission.Copy.{IsCopy, IsCopy-drop}
use mtp.Retransmission.Channel.{Span}
use mtp.Retransmission.Flight.{Echoes, echo, Echoes-le, Echoes-send, Echoes-lose, Echoes-lower}
use mtp.Retransmission.Delivery.{Inv}

-- What an acknowledgement changes of the transmit side, besides the cursors and the FIB.
on_ack_frame :
    (bsn : ℕ) (bib : Bool) (t : TxControl)
    → ((on_ack bsn bib t).unacked ≡ (free bsn t.unacked).0)
      × ((on_ack bsn bib t).pending ≡ t.pending)
      × ((on_ack bsn bib t).last_fsn ≡ t.last_fsn)
unfolding on_ack
on_ack_frame bsn bib t = ground arith

-- The acknowledgements under way change, and the buffer shrinks to what follows position `a`.
acked-Inv :
    (s : Span) (t : TxControl) (es : List (ℕ × Bool)) (a : ℕ) (v : Inv s)
    → t.pending ≡ s.tx.pending
    → t.last_fsn ≡ s.tx.last_fsn
    → v.acked ≤ a
    → a + unacked_len t ≡ v.sent
    → IsNumbered a t.unacked
    → IsCopy s.submitted a t.unacked
    → Echoes v.received a es
    → Inv (record s { tx = t; backward = es })
acked-Inv s t es a v p l up h num cop ec = record {
  acked = a;
  received = v.received;
  sent = v.sent;
  acked_received = Echoes-le v.received ec;
  received_sent = v.received_sent;
  window = omega (arith, v.window);
  numbered = num;
  copied = cop;
  held = h;
  last = l ∙ v.last;
  expects = v.expects;
  queued = p ∙ v.queued;
  bounded = v.bounded;
  got = v.got;
  flight = v.flight;
  echoes = ec;
}

module _ (s : Span) (v : Inv s) (bib : Bool) (b : ℕ) where
  new_tx : TxControl
  new_tx = on_ack (before b) bib s.tx

  near_ack-Inv :
      (es : List (ℕ × Bool))
      → v.acked ≤ b
      → b ≤ v.acked + 64
      → Echoes v.received b es
      → Inv (record s { tx = new_tx; backward = es })
  unfolding new_tx
  near_ack-Inv es k near ec =
      let n = b - v.acked in
      let at : b ≡ v.acked + n = omega arith in
      let fits : n ≤ unacked_len s.tx =
        omega (arith, Echoes-le v.received ec, v.received_sent, v.held) in
      let freed = free-drop n v.acked b s.tx.unacked at v.numbered fits (omega arith) in
      let (left, pending, last) = on_ack_frame (before b) bib s.tx in
      let kept : new_tx.unacked ≡ drop n s.tx.unacked = left ∙ ap (λ r. r.0) freed in
      acked-Inv s new_tx es b v pending last k
        (rw kept (omega (arith, length-drop n s.tx.unacked, v.held)))
        (rw kept (IsNumbered-drop n v.acked b s.tx.unacked at v.numbered))
        (rw kept (IsCopy-drop s.submitted n v.acked b s.tx.unacked at v.copied)) ec

  far_ack-Inv :
      (es : List (ℕ × Bool))
      → v.acked + 64 < b
      → Echoes v.received b es
      → Inv (record s { tx = new_tx; backward = es })
  unfolding new_tx
  far_ack-Inv es far ec =
      let n = b - v.acked in
      let top = Echoes-le v.received ec in
      let stays =
        free_stalls n v.acked b s.tx.unacked (omega arith) v.numbered
          (omega (arith, top, v.received_sent, v.held)) (omega arith)
          (omega (arith, top, v.received_sent, v.window)) in
      let (left, pending, last) = on_ack_frame (before b) bib s.tx in
      let kept : new_tx.unacked ≡ s.tx.unacked = left ∙ ap (λ r. r.0) stays in
      acked-Inv s new_tx es v.acked v pending last (omega arith) (rw kept v.held)
        (rw kept v.numbered) (rw kept v.copied) (Echoes-lower v.received v.acked (omega arith) ec)

-- The first of the acknowledgements under way arrives.
pub takes_ack-Inv :
    (s : Span) (bsn : ℕ) (bib : Bool) (es : List (ℕ × Bool)) (v : Inv s)
    → Echoes v.received v.acked ((bsn, bib) ∷ es)
    → Inv (record s { tx = on_ack bsn bib s.tx; backward = es })
unfolding new_tx
takes_ack-Inv s bsn bib es v (echo b e k ec) = elim (dec_le b (v.acked + 64)) [
  | yes near ↦ rw e (near_ack-Inv s v bib b es k near ec)
  | no far ↦ rw e (far_ack-Inv s v bib b es (omega arith) ec)
]

backward-Inv :
    (s : Span) (es : List (ℕ × Bool)) (v : Inv s)
    → Echoes v.received v.acked es
    → Inv (record s { backward = es })
backward-Inv s es v ec =
    acked-Inv s s.tx es v.acked v refl refl (omega arith) v.held v.numbered v.copied ec

pub acknowledges-Inv :
    (s : Span)
    → Inv s
    → Inv (record s { backward = s.backward ++ ((s.rx.last_received, s.rx.bib) ∷ []) })
acknowledges-Inv s v =
    backward-Inv s _ v (Echoes-send v.received s.rx.last_received s.rx.bib v.expects v.echoes)

pub loses_ack-Inv :
    (s : Span) (xs ys : List (ℕ × Bool)) (x : ℕ × Bool)
    → s.backward ≡ xs ++ (x ∷ ys)
    → Inv s
    → Inv (record s { backward = xs ++ ys })
loses_ack-Inv s xs ys x e v =
    backward-Inv s (xs ++ ys) v (Echoes-lose v.received xs ys x (rw e at v.echoes))
