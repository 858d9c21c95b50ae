-- ===== src/Duplex/Backward.antt =====
-- src/link.rs: what a step of an end is to the direction in which it receives.
use mtp.Base.{ℕ, List, [], ◌∷◌, ◌++◌, ◌≡◌, refl, sym, ◌∙◌, ap, inl, inr, append-nil, append_assoc}
use mtp.SignalUnit.Unit.{SignalUnit}
use mtp.Retransmission.Tx.{TxFrame, TxBody}
use mtp.Retransmission.Rx.{RxOutcome, accepted, discarded, retransmission_requested, on_msu}
use mtp.Retransmission.Channel
use mtp.Retransmission.Channel.{Span, delivered_by}
use mtp.Link.Types.{Event}
use mtp.Link.Engine.{Mtp2Link}
use mtp.Link.Inbound.{handle_su}
use mtp.Duplex.{End, Step}
use mtp.Duplex.Quiet.{msus, msus-append}
use mtp.Duplex.Sent.{frame_of, ack_of, Acknowledges, Sends, poll_transmit-Sends}
use mtp.Duplex.Taken.{TakesMsu, handle_su-Takes}
use mtp.Duplex.Spans.{frames, acks, frames-append, acks-append, span, span_ext, ends, lose_frames}
use mtp.Duplex.Local.{local-Idle, submit_lem, poll_event_lem}

-- What has been polled does not matter.
quiet_lem : (told es es' : List Event) → msus es' ≡ msus es → msus (told ++ es') ≡ msus (told ++ es)
quiet_lem told es es' e =
    msus-append told es' ∙ ap (λ k. msus told ++ k) e ∙ sym (msus-append told es)

delivered_by-append :
    (o : RxOutcome) (xs ys : List (ℕ × List ℕ))
    → xs ++ delivered_by o ys ≡ delivered_by o (xs ++ ys)
delivered_by-append (accepted sio sif) xs ys = sym (append_assoc xs ys ((sio, sif) ∷ []))
delivered_by-append discarded xs ys = refl
delivered_by-append retransmission_requested xs ys = refl

report_lem :
    (o : RxOutcome) (told es es' : List Event)
    → msus es' ≡ delivered_by o (msus es)
    → msus (told ++ es') ≡ delivered_by o (msus (told ++ es))
report_lem o told es es' e =
    msus-append told es'
    ∙ ap (λ k. msus told ++ k) e
    ∙ delivered_by-append o (msus told) (msus es)
    ∙ ap (delivered_by o) (sym (msus-append told es))

snoc_acks :
    (sus : List SignalUnit) (su : SignalUnit) → acks (sus ++ (su ∷ [])) ≡ acks sus ++ ack_of su
snoc_acks sus su =
    acks-append sus (su ∷ []) ∙ ap (λ k. acks sus ++ k) (unfold acks in append-nil (ack_of su))

sends_lem :
    (near far : End) (l : Mtp2Link) (su : SignalUnit)
    → Sends near.link l su
    → Acknowledges near.link.rx su
    → Channel.Reach
        (span far near)
        (span (record far { inbox = far.inbox ++ (su ∷ []) }) (record near { link = l }))
sends_lem near far l su s (inl none) = ends Channel.Reach.here (
    span_ext _ _ refl (sym s.rx) refl
      (sym
        (snoc_acks far.inbox su ∙ ap (λ k. acks far.inbox ++ k) none ∙ append-nil (acks far.inbox)))
      refl (ap (λ es. msus (near.told ++ es)) (sym s.events)))
sends_lem near far l su s (inr one) =
    ends (Channel.Reach.next Channel.Reach.here Channel.Step.acknowledges) (
      span_ext _ _ refl (sym s.rx) refl
        (sym (snoc_acks far.inbox su ∙ ap (λ k. acks far.inbox ++ k) one)) refl
        (ap (λ es. msus (near.told ++ es)) (sym s.events)))

takes_lem :
    (near far : End) (l : Mtp2Link) (su : SignalUnit) (rest : List SignalUnit)
    → TakesMsu near.link l su
    → frames near.inbox ≡ frame_of su ++ frames rest
    → Channel.Reach (span far near) (span far (record near { link = l; inbox = rest }))
takes_lem near far l su rest (TakesMsu.unused rx quiet) e =
    ends (lose_frames (span far near) [] (frame_of su) (frames rest) e) (
      span_ext _ _ refl (sym rx) refl refl refl
        (sym (quiet_lem near.told near.link.events l.events quiet)))
takes_lem near far l su rest (TakesMsu.used h sio sif same rx told) e =
    let f : TxFrame = record { fsn = h.fsn; fib = h.fib; body = TxBody.msu sio sif } in
    let o = (on_msu h.fsn sio sif near.link.rx).1 in
    ends
      (Channel.Reach.next Channel.Reach.here
        (Channel.Step.receives f (frames rest) (e ∙ ap (λ k. frame_of k ++ frames rest) same)))
      (span_ext _ _ refl (sym rx) refl refl refl
        (sym (report_lem o near.told near.link.events l.events told)))

pub backward_lem :
    (near far near' far' : End)
    → Step near far near' far'
    → Channel.Reach (span far near) (span far' near')
backward_lem near far _ _ (Step.calls c h) =
    let i = local-Idle c h near.link in
    ends Channel.Reach.here (
      span_ext _ _ refl (sym i.same.1) refl refl refl
        (sym (quiet_lem near.told near.link.events _ i.quiet)))
backward_lem near far _ _ (Step.submits sio sif l e) =
    let (tx, rx, events) = submit_lem sio sif near.link l e in
    ends Channel.Reach.here
      (span_ext _ _ refl (sym rx) refl refl refl (ap (λ es. msus (near.told ++ es)) (sym events)))
backward_lem near far _ _ (Step.polls_event l ev e) =
    let (tx, rx, events) = poll_event_lem near.link l ev e in
    ends Channel.Reach.here (
      span_ext _ _ refl (sym rx) refl refl refl (
        ap (λ es. msus (near.told ++ es)) events
        ∙ ap msus (sym (append_assoc near.told (ev ∷ []) l.events))))
backward_lem near far _ _ (Step.transmits l su e room) =
    let s = poll_transmit-Sends near.link l su e in sends_lem near far l su s s.acks
backward_lem near far _ _ (Step.receives su rest e) =
    takes_lem near far (handle_su su near.link) su rest (handle_su-Takes su near.link).msu
      (ap frames e ∙ unfold frames in refl)
backward_lem near far _ _ (Step.loses xs ys su e) =
    ends
      (lose_frames (span far near) (frames xs) (frame_of su) (frames ys)
        (ap frames e ∙ frames-append xs (su ∷ ys) ∙ unfold frames in refl))
      (span_ext _ _ refl refl (sym (frames-append xs ys)) refl refl refl)
