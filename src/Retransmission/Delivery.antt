-- ===== src/Retransmission/Delivery.antt =====
-- src/retransmission.rs: over a span that loses frames and acknowledgements, the receive side
-- delivers the submitted MSUs in order, none twice and none made up.
pub mod Transmit
pub mod Receive
pub mod Acknowledge
pub mod Safety
use native.Mathlib.Nat.{add-zero}
use mtp.Base.{
  ℕ, zero, suc, ◌+◌, ◌-◌, ◌%◌, ◌≤◌, ◌<◌, ◌≡◌, ◌≢◌, ◌⊎◌, inl, inr, refl, sym, ◌∙◌, ap, arith, Bool,
  true, false, Bool-cases, Option, some, List, [], ◌∷◌, ◌++◌, length, length-append, get_elem?,
  get_elem?-lt, get_elem?-append, take, take-suc, take-append, drop, drop-append, drop-cons,
  take-append-drop, ◌==◌, max, subst,
}
use mtp.Retransmission.Seq.{seq_add, seq_forward}
use mtp.Retransmission.Method.{RetransmissionMethod}
use mtp.Retransmission.Tx.{
  BufferedMsu, TxBody, TxFrame, TxControl, unacked_len, submit, poll, free, acknowledge, nack,
  on_ack, resend,
}
use mtp.Retransmission.Tx
use mtp.Retransmission.Rx.{
  RxControl, RxOutcome, accepted, discarded, retransmission_requested, on_msu, request,
}
use mtp.Retransmission.Rx
use mtp.Retransmission.Numbering.{
  IsNumbered, before, seq_add-before, seq_forward-before, IsNumbered-append, IsNumbered-drop,
  free-drop, free_stalls,
}
use mtp.Retransmission.Copy.{IsCopy, buffered, IsCopy-extend, IsCopy-append, IsCopy-drop}
use mtp.Retransmission.Polled.{Polled, Holds, Assigns, idle, again, fresh, next_msu, poll-Polled}
use mtp.Retransmission.Channel.{Span, opened, delivered_by, receive_body, Step, Reach}
use mtp.Retransmission.Flight.{
  Flight, fill, carry, Echoes, echo, Flight-le, Flight-stream, Flight-raise, Flight-fill,
  Flight-send, Flight-lose, Echoes-le, Echoes-raise, Echoes-send, Echoes-lose, Flight-lower,
  Echoes-lower,
}

-- The positions that have been acknowledged, received and sent.
pub record Inv (s : Span) : Type 0 where
  pub acked : ℕ
  pub received : ℕ
  pub sent : ℕ
  pub acked_received : acked ≤ received
  pub received_sent : received ≤ sent
  pub window : sent ≤ acked + 127
  pub numbered : IsNumbered acked s.tx.unacked
  pub copied : IsCopy s.submitted acked s.tx.unacked
  pub held : acked + unacked_len s.tx ≡ sent
  pub last : s.tx.last_fsn ≡ before sent
  pub expects : s.rx.last_received ≡ before received
  pub queued : s.tx.pending ≡ drop sent s.submitted
  pub bounded : sent ≤ length s.submitted
  pub got : s.delivered ≡ take received s.submitted
  pub flight : Flight s.submitted sent received s.forward
  pub echoes : Echoes received acked s.backward

pub opened-Inv : (m : RetransmissionMethod) → Inv (opened m)
unfolding opened Tx.new Rx.new
opened-Inv m = record {
  acked = 0;
  received = 0;
  sent = 0;
  acked_received = omega arith;
  received_sent = omega arith;
  window = omega arith;
  numbered = tt;
  copied = tt;
  held = refl;
  last = refl;
  expects = refl;
  queued = refl;
  bounded = omega arith;
  got = refl;
  flight = Flight.done (omega arith);
  echoes = Echoes.done (omega arith);
}

pub submits-Inv :
    (s : Span) (sio : ℕ) (sif : List ℕ)
    → Inv s
    → Inv (record s { tx = submit sio sif s.tx; submitted = s.submitted ++ ((sio, sif) ∷ []) })
unfolding submit
submits-Inv s sio sif v = record {
  acked = v.acked;
  received = v.received;
  sent = v.sent;
  acked_received = v.acked_received;
  received_sent = v.received_sent;
  window = v.window;
  numbered = v.numbered;
  copied = IsCopy-extend s.submitted _ v.acked s.tx.unacked v.copied;
  held = v.held;
  last = v.last;
  expects = v.expects;
  queued = rw (drop-append v.sent s.submitted ((sio, sif) ∷ []) v.bounded, v.queued);
  bounded = omega (arith, v.bounded, length-append s.submitted ((sio, sif) ∷ []));
  got = v.got ∙ sym (take-append v.received s.submitted _ (omega arith));
  flight = Flight-stream s.submitted v.sent ((sio, sif) ∷ []) v.flight;
  echoes = v.echoes;
}
