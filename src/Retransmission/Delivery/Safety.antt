-- ===== src/Retransmission/Delivery/Safety.antt =====
-- src/retransmission.rs: in-order delivery over a lossy span.
use mtp.Base.{ℕ, ◌≡◌, sym, List, ◌++◌, drop, take-append-drop}
use mtp.Retransmission.Method.{RetransmissionMethod}
use mtp.Retransmission.Tx.{poll}
use mtp.Retransmission.Polled.{poll-Polled}
use mtp.Retransmission.Channel.{Span, opened, Step, Reach}
use mtp.Retransmission.Delivery.{Inv}
use mtp.Retransmission.Delivery.{opened-Inv, submits-Inv}
use mtp.Retransmission.Delivery.Transmit.{transmits-Inv}
use mtp.Retransmission.Delivery.Receive.{receives-Inv, loses_frame-Inv}
use mtp.Retransmission.Delivery.Acknowledge.{takes_ack-Inv, acknowledges-Inv, loses_ack-Inv}

pub Step-Inv : {s t : Span} → Step s t → Inv s → Inv t
Step-Inv {s} (Step.submits sio sif) v = submits-Inv s sio sif v
Step-Inv {s} (Step.transmits room) v =
    transmits-Inv s (poll s.tx).0 (poll s.tx).1 (poll-Polled s.tx) room v
Step-Inv {s} (Step.loses_frame xs ys f e) v = loses_frame-Inv s xs ys f e v
Step-Inv {s} (Step.receives f fs e) v = receives-Inv s f fs v (rw e at v.flight)
Step-Inv {s} Step.acknowledges v = acknowledges-Inv s v
Step-Inv {s} (Step.loses_ack xs ys a e) v = loses_ack-Inv s xs ys a e v
Step-Inv {s} (Step.takes_ack bsn bib acks e) v = takes_ack-Inv s bsn bib acks v (rw e at v.echoes)

pub Reach-Inv : {s t : Span} → Inv s → Reach s t → Inv t
Reach-Inv v Reach.here = v
Reach-Inv v (Reach.next r st) = Step-Inv st (Reach-Inv v r)

-- However frames and acknowledgements are lost between a fresh transmit side and a fresh receive
-- side of either method, as long as no more than 127 MSUs are outstanding at a time, what has been
-- delivered is a beginning of what was submitted: nothing is left out before its end, repeated,
-- reordered or altered.
pub delivered_in_order :
    (m : RetransmissionMethod) (s : Span)
    → Reach (opened m) s
    → (rest : List (ℕ × List ℕ)) × (s.submitted ≡ s.delivered ++ rest)
delivered_in_order m s r =
    let v = Reach-Inv (opened-Inv m) r in
    (drop v.received s.submitted, rw v.got (sym (take-append-drop v.received s.submitted)))
