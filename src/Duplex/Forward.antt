-- ===== src/Duplex/Forward.antt =====
-- src/link.rs: what a step of an end is to the direction in which it transmits.
use mtp.Base.{List, [], ◌∷◌, ◌++◌, ◌≡◌, ◌≤◌, refl, sym, ◌∙◌, ap, append-nil, subst}
use mtp.SignalUnit.Unit.{SignalUnit}
use mtp.Retransmission.Tx.{unacked_len, poll}
use mtp.Retransmission.Channel
use mtp.Retransmission.Channel.{Span}
use mtp.Link.Engine.{Mtp2Link}
use mtp.Link.Inbound.{handle_su}
use mtp.Duplex.{End, Step}
use mtp.Duplex.Sent.{frame_of, ack_of, Polls, poll_transmit-Sends}
use mtp.Duplex.Taken.{TakesAck, handle_su-Takes}
use mtp.Duplex.Spans.{
  frames, acks, frames-append, acks-append, span, Reach-trans, span_ext, ends, lose_frames,
  lose_acks,
}
use mtp.Duplex.Local.{local-Idle, submit_lem, poll_event_lem}

snoc_frames :
    (sus : List SignalUnit) (su : SignalUnit)
    → frames (sus ++ (su ∷ [])) ≡ frames sus ++ frame_of su
snoc_frames sus su =
    frames-append sus (su ∷ [])
    ∙ ap (λ k. frames sus ++ k) (unfold frames in append-nil (frame_of su))

polls_lem :
    (near far : End) (l : Mtp2Link) (su : SignalUnit)
    → Polls near.link.tx l.tx su
    → unacked_len l.tx ≤ 127
    → Channel.Reach
        (span near far)
        (span (record near { link = l }) (record far { inbox = far.inbox ++ (su ∷ []) }))
polls_lem near far l su (Polls.nothing tx none) room = ends Channel.Reach.here (
    span_ext _ _ (sym tx) refl
      (sym (
        snoc_frames far.inbox su
        ∙ ap (λ k. frames far.inbox ++ k) none
        ∙ append-nil (frames far.inbox)))
      refl refl refl)
polls_lem near far l su (Polls.empty tx none) room =
    let s = span near far in
    let room' : unacked_len (poll s.tx).0 ≤ 127 = subst (λ t. unacked_len t ≤ 127) tx room in
    let sent = record s { tx = (poll s.tx).0; forward = s.forward ++ ((poll s.tx).1 ∷ []) } in
    ends
      (Reach-trans (Channel.Reach.next Channel.Reach.here (Channel.Step.transmits room'))
        (lose_frames sent s.forward ((poll s.tx).1 ∷ []) [] refl))
      (span_ext _ _ (sym tx) refl
        (sym (snoc_frames far.inbox su ∙ ap (λ k. frames far.inbox ++ k) none)) refl refl refl)
polls_lem near far l su (Polls.frame tx one) room =
    let s = span near far in
    let room' : unacked_len (poll s.tx).0 ≤ 127 = subst (λ t. unacked_len t ≤ 127) tx room in
    ends (Channel.Reach.next Channel.Reach.here (Channel.Step.transmits room')) (
      span_ext _ _ (sym tx) refl
        (sym (snoc_frames far.inbox su ∙ ap (λ k. frames far.inbox ++ k) one)) refl refl refl)

takes_lem :
    (near far : End) (l : Mtp2Link) (su : SignalUnit) (rest : List SignalUnit)
    → TakesAck near.link.tx l.tx su
    → acks near.inbox ≡ ack_of su ++ acks rest
    → Channel.Reach (span near far) (span (record near { link = l; inbox = rest }) far)
takes_lem near far l su rest (TakesAck.untouched tx) e =
    ends (lose_acks (span near far) [] (ack_of su) (acks rest) e)
      (span_ext _ _ (sym tx) refl refl refl refl refl)
takes_lem near far l su rest (TakesAck.taken bsn bib one tx) e =
    ends
      (Channel.Reach.next Channel.Reach.here
        (Channel.Step.takes_ack bsn bib (acks rest) (e ∙ ap (λ k. k ++ acks rest) one)))
      (span_ext _ _ (sym tx) refl refl refl refl refl)

pub forward_lem :
    (near far near' far' : End)
    → Step near far near' far'
    → Channel.Reach (span near far) (span near' far')
forward_lem near far _ _ (Step.calls c h) =
    ends Channel.Reach.here
      (span_ext _ _ (sym (local-Idle c h near.link).same.0) refl refl refl refl refl)
forward_lem near far _ _ (Step.submits sio sif l e) =
    ends (Channel.Reach.next Channel.Reach.here (Channel.Step.submits sio sif))
      (span_ext _ _ (sym (submit_lem sio sif near.link l e).0) refl refl refl refl refl)
forward_lem near far _ _ (Step.polls_event l ev e) =
    ends Channel.Reach.here
      (span_ext _ _ (sym (poll_event_lem near.link l ev e).0) refl refl refl refl refl)
forward_lem near far _ _ (Step.transmits l su e room) =
    polls_lem near far l su (poll_transmit-Sends near.link l su e).tx room
forward_lem near far _ _ (Step.receives su rest e) =
    takes_lem near far (handle_su su near.link) su rest (handle_su-Takes su near.link).ack
      (ap acks e ∙ unfold acks in refl)
forward_lem near far _ _ (Step.loses xs ys su e) =
    ends
      (lose_acks (span near far) (acks xs) (ack_of su) (acks ys)
        (ap acks e ∙ acks-append xs (su ∷ ys) ∙ unfold acks in refl))
      (span_ext _ _ refl refl refl (sym (acks-append xs ys)) refl refl)
