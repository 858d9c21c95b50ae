-- ===== src/Retransmission/Delivery/Transmit.antt =====
-- src/retransmission.rs: a poll keeps the invariant of a span.
use mtp.Base.{
  ℕ, suc, ◌+◌, ◌%◌, ◌≤◌, ◌≡◌, refl, sym, ◌∙◌, ap, arith, List, [], ◌∷◌, ◌++◌, length-append,
  get_elem?-lt, drop-cons,
}
use mtp.Retransmission.Seq.{seq_add}
use mtp.Retransmission.Tx.{TxFrame, TxControl, unacked_len, resend}
use mtp.Retransmission.Numbering.{seq_add-before, IsNumbered-append}
use mtp.Retransmission.Copy.{buffered, IsCopy-append}
use mtp.Retransmission.Polled.{Polled, Holds, Assigns, idle, again, fresh, next_msu}
use mtp.Retransmission.Channel.{Span}
use mtp.Retransmission.Flight.{Flight, Flight-raise, Flight-fill, Flight-send}
use mtp.Retransmission.Delivery.{Inv}

-- A poll that assigns no number, with what it sends.
keep_lem :
    (s : Span) (t : TxControl) (fs : List TxFrame) (v : Inv s)
    → Holds s.tx t
    → Flight s.submitted v.sent v.received fs
    → Inv (record s { tx = t; forward = fs })
keep_lem s t fs v h fl = record {
  acked = v.acked;
  received = v.received;
  sent = v.sent;
  acked_received = v.acked_received;
  received_sent = v.received_sent;
  window = v.window;
  numbered = rw h.unacked v.numbered;
  copied = rw h.unacked v.copied;
  held = rw h.unacked v.held;
  last = h.last_fsn ∙ v.last;
  expects = v.expects;
  queued = h.pending ∙ v.queued;
  bounded = v.bounded;
  got = v.got;
  flight = fl;
  echoes = v.echoes;
}

assign_lem :
    (s : Span) (t : TxControl) (sio : ℕ) (sif : List ℕ) (v : Inv s)
    → unacked_len t ≤ 127
    → Assigns s.tx t sio sif
    → Inv
        (record s { tx = t; forward = s.forward ++ (resend s.tx.fib (next_msu s.tx sio sif) ∷ []) })
assign_lem s t sio sif v room a =
    let m = next_msu s.tx sio sif in
    let n = v.sent in
    let number : m.fsn ≡ n % 128 = ap (λ k. seq_add k 1) v.last ∙ seq_add-before n in
    let (at, rest, below) = drop-cons n s.submitted (sym v.queued ∙ a.pending) in
    let size = length-append s.tx.unacked (m ∷ []) in
    let held' : v.acked + unacked_len t ≡ suc n = rw a.unacked (omega (arith, size, v.held)) in
    record {
      acked = v.acked;
      received = v.received;
      sent = suc n;
      acked_received = v.acked_received;
      received_sent = omega (arith, v.received_sent);
      window = omega (arith, held', room);
      numbered =
          rw a.unacked (IsNumbered-append v.acked s.tx.unacked m v.numbered (rw v.held number));
      copied =
          rw a.unacked
            (IsCopy-append s.submitted v.acked n s.tx.unacked m (sym v.held) v.copied at);
      held = held';
      last = a.last_fsn ∙ number ∙ omega arith;
      expects = v.expects;
      queued = sym rest;
      bounded = below;
      got = v.got;
      flight =
          Flight-send s.submitted (suc n) (resend s.tx.fib m) n sio sif number refl at (omega arith)
            (omega arith) (Flight-raise s.submitted n (suc n) (omega arith) v.flight);
      echoes = v.echoes;
    }

pub transmits-Inv :
    (s : Span) (t : TxControl) (f : TxFrame)
    → Polled s.tx t f
    → unacked_len t ≤ 127
    → Inv s
    → Inv (record s { tx = t; forward = s.forward ++ (f ∷ []) })
transmits-Inv s t f (idle e h) room v =
    keep_lem s t _ v h (Flight-fill s.submitted v.sent f (ap (λ k. k.body) e) v.flight)
transmits-Inv s t f (again j m e sends h) room v =
    let (number, at) = buffered s.submitted v.acked j s.tx.unacked m v.numbered v.copied e in
    keep_lem s t _ v h (
      rw sends (
        Flight-send s.submitted v.sent (resend s.tx.fib m) (v.acked + j) m.sio m.sif number refl at
          (omega (arith, get_elem?-lt s.tx.unacked j e, v.held)) (omega (arith, v.window))
          v.flight))
transmits-Inv s t f (fresh sio sif sends a) room v = rw sends (assign_lem s t sio sif v room a)
