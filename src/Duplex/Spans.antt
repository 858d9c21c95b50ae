-- ===== src/Duplex/Spans.antt =====
-- src/link.rs: each direction of two links is a transmit side and a receive side over a lossy span.
use mtp.Base.{ℕ, Bool, List, [], ◌∷◌, ◌++◌, ◌≡◌, refl, sym, ◌∙◌, ap, append_assoc, subst}
use mtp.SignalUnit.Unit.{SignalUnit}
use mtp.Retransmission.Tx.{TxFrame}
use mtp.Retransmission.Channel.{Span, delivered_by, receive_body}
use mtp.Retransmission.Channel
use mtp.Duplex.{End}
use mtp.Duplex.Quiet.{msus}
use mtp.Duplex.Sent.{frame_of, ack_of}

-- The frames and the acknowledgements that units carry.
unfoldable pub frames : List SignalUnit → List TxFrame
frames [] = []
frames (su ∷ sus) = frame_of su ++ frames sus

unfoldable pub acks : List SignalUnit → List (ℕ × Bool)
acks [] = []
acks (su ∷ sus) = ack_of su ++ acks sus

pub frames-append : (xs ys : List SignalUnit) → frames (xs ++ ys) ≡ frames xs ++ frames ys
unfolding frames
frames-append [] ys = refl
frames-append (x ∷ xs) ys =
    ap (λ k. frame_of x ++ k) (frames-append xs ys)
    ∙ sym (append_assoc (frame_of x) (frames xs) (frames ys))

pub acks-append : (xs ys : List SignalUnit) → acks (xs ++ ys) ≡ acks xs ++ acks ys
unfolding acks
acks-append [] ys = refl
acks-append (x ∷ xs) ys =
    ap (λ k. ack_of x ++ k) (acks-append xs ys) ∙ sym (append_assoc (ack_of x) (acks xs) (acks ys))

-- The MSUs that an end has reported, polled or not.
abbrev pub delivered : End → List (ℕ × List ℕ)
delivered e = msus (e.told ++ e.link.events)

-- The direction from one end to another: what the one transmits, and what the other has delivered.
abbrev pub span : End → End → Span
span a b = record {
  tx = a.link.tx;
  rx = b.link.rx;
  forward = frames b.inbox;
  backward = acks a.inbox;
  submitted = a.submitted;
  delivered = delivered b;
}

pub Reach-trans : {s t u : Span} → Channel.Reach s t → Channel.Reach t u → Channel.Reach s u
Reach-trans r Channel.Reach.here = r
Reach-trans r (Channel.Reach.next q st) = Channel.Reach.next (Reach-trans r q) st

-- Spans with equal contents.
pub span_ext :
    (s t : Span)
    → s.tx ≡ t.tx
    → s.rx ≡ t.rx
    → s.forward ≡ t.forward
    → s.backward ≡ t.backward
    → s.submitted ≡ t.submitted
    → s.delivered ≡ t.delivered
    → s ≡ t
span_ext s t tx rx forward backward submitted delivered i = record {
  tx = tx i;
  rx = rx i;
  forward = forward i;
  backward = backward i;
  submitted = submitted i;
  delivered = delivered i;
}

pub ends : {s t u : Span} → Channel.Reach s t → t ≡ u → Channel.Reach s u
ends {s} r e = subst (Channel.Reach s) e r

-- Frames and acknowledgements are lost one by one.
pub lose_frames :
    (s : Span) (xs fs ys : List TxFrame)
    → s.forward ≡ xs ++ (fs ++ ys)
    → Channel.Reach s (record s { forward = xs ++ ys })
lose_frames s xs [] ys e = ends Channel.Reach.here (span_ext s _ refl refl e refl refl refl)
lose_frames s xs (f ∷ fs) ys e =
    Reach-trans (Channel.Reach.next Channel.Reach.here (Channel.Step.loses_frame xs (fs ++ ys) f e))
      (lose_frames (record s { forward = xs ++ (fs ++ ys) }) xs fs ys refl)

pub lose_acks :
    (s : Span) (xs acks ys : List (ℕ × Bool))
    → s.backward ≡ xs ++ (acks ++ ys)
    → Channel.Reach s (record s { backward = xs ++ ys })
lose_acks s xs [] ys e = ends Channel.Reach.here (span_ext s _ refl refl refl e refl refl)
lose_acks s xs (a ∷ acks) ys e =
    Reach-trans (Channel.Reach.next Channel.Reach.here (Channel.Step.loses_ack xs (acks ++ ys) a e))
      (lose_acks (record s { backward = xs ++ (acks ++ ys) }) xs acks ys refl)
