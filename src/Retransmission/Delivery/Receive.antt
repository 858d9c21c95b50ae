-- ===== src/Retransmission/Delivery/Receive.antt =====
-- src/retransmission.rs: a frame that arrives, or does not, keeps the invariant of a span.
use mtp.Base.{
  ℕ, suc, ◌+◌, ◌%◌, ◌≤◌, ◌<◌, ◌≡◌, ◌≢◌, inl, inr, refl, sym, ◌∙◌, arith, Bool, true, false,
  Bool-cases, some, List, ◌∷◌, ◌++◌, get_elem?, take-suc, ◌==◌, max, if◌then◌else◌,
}
use mtp.Retransmission.Seq.{seq_forward}
use mtp.Retransmission.Tx.{TxFrame}
use mtp.Retransmission.Rx.{
  RxControl, RxOutcome, accepted, discarded, retransmission_requested, on_msu, request,
}
use mtp.Retransmission.Numbering.{seq_forward-before}
use mtp.Retransmission.Channel.{Span, delivered_by, receive_body}
use mtp.Retransmission.Flight.{Flight, fill, carry, Flight-lose, Echoes-raise, Flight-lower}
use mtp.Retransmission.Delivery.{Inv}

-- What the receive side does with a frame: it accepts the next number and nothing else.
pub data Received (r : RxControl) (fsn sio : ℕ) (sif : List ℕ) (r' : RxControl) (o : RxOutcome)
    : Type 0 where
  accepts :
      seq_forward fsn r.last_received ≡ 1
      → r'.last_received ≡ fsn
      → o ≡ accepted sio sif
      → Received r fsn sio sif r' o
  refuses :
      seq_forward fsn r.last_received ≢ 1
      → r'.last_received ≡ r.last_received
      → ((ms : List (ℕ × List ℕ)) → delivered_by o ms ≡ ms)
      → Received r fsn sio sif r' o

refused-Received :
    (fsn sio : ℕ) (sif : List ℕ) (r : RxControl) (gap : Bool)
    → seq_forward fsn r.last_received ≢ 1
    → let o : RxControl × RxOutcome =
        if gap then (request r, retransmission_requested) else (r, discarded) in
      Received r fsn sio sif o.0 o.1
unfolding request
refused-Received fsn sio sif r true h = refuses h (ground arith) (λ ms. refl)
refused-Received fsn sio sif r false h = refuses h refl (λ ms. refl)

on_msu-Received :
    (fsn sio : ℕ) (sif : List ℕ) (r : RxControl)
    → Received r fsn sio sif (on_msu fsn sio sif r).0 (on_msu fsn sio sif r).1
unfolding on_msu
on_msu-Received fsn sio sif r = elim (Bool-cases (seq_forward fsn r.last_received == 1)) [
  | inl e ↦ rw e (accepts (ground arith) refl refl)
  | inr e ↦ rw e (refused-Received fsn sio sif r _ (ground arith))
]

-- The MSU of position `i` arrives.
arrives-Inv :
    (s : Span) (fs : List TxFrame) (i fsn sio : ℕ) (sif : List ℕ) (v : Inv s) (r' : RxControl)
    (o : RxOutcome)
    → fsn ≡ i % 128
    → get_elem? s.submitted i ≡ some (sio, sif)
    → i < v.sent
    → v.received ≤ i + 127
    → Flight s.submitted v.sent (max v.received (suc i)) fs
    → Received s.rx fsn sio sif r' o
    → Inv (record s { forward = fs; rx = r'; delivered = delivered_by o s.delivered })
arrives-Inv s fs i fsn sio sif v r' o e at l k fl (accepts d last out) =
    let here : i ≡ v.received =
      seq_forward-before i v.received (omega (arith, v.window, v.acked_received)) k
        (rw (e, v.expects) at d) in
    let more : v.received ≤ suc v.received = omega arith in
    record {
      acked = v.acked;
      received = suc v.received;
      sent = v.sent;
      acked_received = omega (arith, v.acked_received);
      received_sent = omega (arith, here, l);
      window = v.window;
      numbered = v.numbered;
      copied = v.copied;
      held = v.held;
      last = v.last;
      expects = last ∙ e ∙ omega (arith, here);
      queued = v.queued;
      bounded = v.bounded;
      got = rw (out, v.got) (sym (take-suc v.received s.submitted (rw here at at)));
      flight = Flight-lower s.submitted v.sent (suc v.received) (omega (arith, here)) fl;
      echoes = Echoes-raise v.received (suc v.received) more v.echoes;
    }
arrives-Inv s fs i fsn sio sif v r' o e at l k fl (refuses d last out) = record {
  acked = v.acked;
  received = v.received;
  sent = v.sent;
  acked_received = v.acked_received;
  received_sent = v.received_sent;
  window = v.window;
  numbered = v.numbered;
  copied = v.copied;
  held = v.held;
  last = v.last;
  expects = last ∙ v.expects;
  queued = v.queued;
  bounded = v.bounded;
  got = out s.delivered ∙ v.got;
  flight = Flight-lower s.submitted v.sent v.received (omega arith) fl;
  echoes = v.echoes;
}

-- Fewer frames are under way.
forward-Inv :
    (s : Span) (fs : List TxFrame) (v : Inv s)
    → Flight s.submitted v.sent v.received fs
    → Inv (record s { forward = fs })
forward-Inv s fs v fl = record {
  acked = v.acked;
  received = v.received;
  sent = v.sent;
  acked_received = v.acked_received;
  received_sent = v.received_sent;
  window = v.window;
  numbered = v.numbered;
  copied = v.copied;
  held = v.held;
  last = v.last;
  expects = v.expects;
  queued = v.queued;
  bounded = v.bounded;
  got = v.got;
  flight = fl;
  echoes = v.echoes;
}

pub receives-Inv :
    (s : Span) (f : TxFrame) (fs : List TxFrame) (v : Inv s)
    → Flight s.submitted v.sent v.received (f ∷ fs)
    → Inv (receive_body f.fsn f.body (record s { forward = fs }))
receives-Inv s f fs v (fill e fl) = rw e (forward-Inv s fs v fl)
receives-Inv s f fs v (carry i sio sif e body at l k fl) =
    rw body
      (arrives-Inv s fs i f.fsn sio sif v _ _ e at l k fl (on_msu-Received f.fsn sio sif s.rx))

pub loses_frame-Inv :
    (s : Span) (xs ys : List TxFrame) (f : TxFrame)
    → s.forward ≡ xs ++ (f ∷ ys)
    → Inv s
    → Inv (record s { forward = xs ++ ys })
loses_frame-Inv s xs ys f e v =
    forward-Inv s (xs ++ ys) v (Flight-lose s.submitted v.sent xs ys f (rw e at v.flight))
