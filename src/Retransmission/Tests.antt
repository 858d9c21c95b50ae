-- ===== src/Retransmission/Tests.antt =====
-- src/retransmission.rs: runs of the two controllers.
use mtp.Base.{
  ℕ, zero, suc, ◌≤◌, ◌<◌, ◌≡◌, ◌++◌, refl, arith, true, false, some, none, inl, List, [], ◌∷◌, map,
  drop, take,
}
use mtp.Retransmission.Method.{basic, pcr, PcrParams}
use mtp.Retransmission.Tx.{
  BufferedMsu, TxControl, TxFrame, TxBody, unacked_len, resend, submit, poll, poll_by, poll_basic,
  basic_from, basic_fresh, basic_resend, send_new, on_ack, fill, forced, octets,
}
use mtp.Retransmission.Tx
use mtp.Retransmission.Seq.{seq_add}
use mtp.Retransmission.Rx.{RxControl}
use mtp.Retransmission.Numbering.{IsNumbered, before}
use mtp.Retransmission.Ack.{on_ack-drop, on_ack_stalls, on_ack_skips}
use mtp.Retransmission.Recovery.{polls, receive_all, accepted_msu, nack-resends, nack-recovers}
use mtp.Retransmission.Cycle.{length-poll, polls-cycle}
use mtp.Retransmission.Channel.{
  Span, opened, receive_body, submits, transmits, receives, Reach, here, next,
}
use mtp.Retransmission.Delivery.Safety.{delivered_in_order}

abbrev buffered : ℕ → BufferedMsu
buffered n = record { fsn = n; sio = 5; sif = n ∷ [] }

-- Four MSUs outstanding, of which a retransmission has sent two again.
abbrev sender : TxControl
sender = record {
  method = basic;
  last_fsn = 3;
  fib = true;
  pending = [];
  unacked = map buffered (0 ∷ 1 ∷ 2 ∷ 3 ∷ []);
  basic_cursor = some 2;
  pcr_cursor = 0;
  last_acked = 127;
}

abbrev params : PcrParams
params = record { n1 = 4; n2 = 8000 }

-- The same under PCR: the number of MSUs has reached N1.
abbrev pcr_sender : TxControl
pcr_sender = record sender { method = pcr params; basic_cursor = none; pcr_cursor = 3 }

-- The first MSU has arrived, and the second was found missing.
abbrev receiver : RxControl
receiver = record { method = basic; last_received = 0; bib = false; nack_pending = true }

numbered : IsNumbered 0 sender.unacked
numbered = ground arith

on_ack-drop_example : (on_ack (before 2) true sender).unacked ≡ drop 2 sender.unacked
on_ack-drop_example = on_ack-drop sender 0 2 numbered (omega arith) true (omega arith)

on_ack_skips_example :
    (2 < 3) × (2 < 3) × ((poll (on_ack (before 2) true sender)).1 ≡ resend true (buffered 3))
on_ack_skips_example =
    on_ack_skips sender 0 2 numbered (omega arith) 2 (buffered 3) refl refl (omega arith)
      (omega arith) (omega arith) refl

nack-resends_example :
    (polls 3 (on_ack (before 1) false sender)).1 ≡ map (resend false) (drop 1 sender.unacked)
nack-resends_example =
    nack-resends sender 0 1 false refl numbered (omega arith) (omega arith) (ground arith)

nack-recovers_example :
    (receive_all (polls 3 (on_ack 0 false sender)).1 receiver).1
    ≡ map accepted_msu (drop 1 sender.unacked)
nack-recovers_example =
    nack-recovers sender receiver 0 1 refl numbered (omega arith) (omega arith) refl (ground arith)

length-poll_example : unacked_len (poll pcr_sender).0 ≤ 4
length-poll_example = length-poll pcr_sender params 4 refl (omega arith) (omega arith)

polls-cycle_example :
    (polls 4 pcr_sender).1
    ≡ map (resend true) (drop 3 pcr_sender.unacked ++ take 3 pcr_sender.unacked)
polls-cycle_example =
    polls-cycle pcr_sender params 3 refl (unfold forced octets in refl) (omega arith, inl refl)

-- MSUs numbered from `a`, as many as `n`.
abbrev numbers : ℕ → ℕ → List BufferedMsu
numbers zero a = []
numbers (suc n) a = buffered a ∷ numbers n (suc a)

abbrev full_sender : TxControl
full_sender = record sender { unacked = numbers 70 0; last_fsn = 69; basic_cursor = none }

on_ack_stalls_example :
    ((on_ack (before 70) true full_sender).unacked ≡ full_sender.unacked)
    × ((on_ack (before 70) true full_sender).last_acked ≡ full_sender.last_acked)
on_ack_stalls_example =
    on_ack_stalls full_sender 0 70 (ground arith) (omega arith) true (omega arith) (omega arith)

-- One MSU is submitted, sent and received.
abbrev submitted : Span
submitted = record (opened basic) {
  tx = submit 5 (7 ∷ []) (Tx.new basic);
  submitted = (5, 7 ∷ []) ∷ [];
}

abbrev frame : TxFrame
frame = record { fsn = 0; fib = true; body = TxBody.msu 5 (7 ∷ []) }

abbrev sent : Span
sent = record submitted { tx = (poll submitted.tx).0; forward = frame ∷ [] }

abbrev received : Span
received = receive_body 0 frame.body (record sent { forward = [] })

delivers : Reach (opened basic) received
unfolding opened submit poll poll_by poll_basic basic_from basic_fresh basic_resend send_new Tx.new
    seq_add
delivers =
    next (next (next here (submits 5 (7 ∷ []))) (transmits (omega arith))) (receives frame [] refl)

delivered_in_order_example :
    (rest : List (ℕ × List ℕ)) × (received.submitted ≡ received.delivered ++ rest)
delivered_in_order_example = delivered_in_order basic received delivers
