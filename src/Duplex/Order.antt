-- ===== src/Duplex/Order.antt =====
-- src/link.rs: what two links deliver to each other.
use mtp.Base.{ℕ, List, [], ◌++◌, ◌≡◌, refl, ◌∙◌, ap, subst}
use mtp.Retransmission.Method.{RetransmissionMethod}
use mtp.Retransmission.Tx
use mtp.Retransmission.Rx
use mtp.Retransmission.Channel
use mtp.Retransmission.Channel.{Span}
use mtp.Retransmission.Delivery.Safety.{delivered_in_order}
use mtp.Link.Types.{Mtp2State}
use mtp.Link.Engine.{Mtp2Link, stop_all_timers}
use mtp.Link.Manage.{start, begin}
use mtp.Duplex.{End, Reach, opened}
use mtp.Duplex.Quiet.{msus}
use mtp.Duplex.Spans.{frames, acks, span, span_ext, Reach-trans, delivered}
use mtp.Duplex.Forward.{forward_lem}
use mtp.Duplex.Backward.{backward_lem}

-- Both directions of two ends.
reach_lem :
    (a b a' b' : End)
    → Reach a b a' b'
    → Channel.Reach (span a b) (span a' b') × Channel.Reach (span b a) (span b' a')
reach_lem a b _ _ Reach.here = (Channel.Reach.here, Channel.Reach.here)
reach_lem a b _ _ (Reach.left {a'} {b'} {a''} {b''} r st) =
    let (there, back) = reach_lem a b a' b' r in
    (
      Reach-trans there (forward_lem a' b' a'' b'' st),
      Reach-trans back (backward_lem a' b' a'' b'' st),
    )
reach_lem a b _ _ (Reach.right {a'} {b'} {a''} {b''} r st) =
    let (there, back) = reach_lem a b a' b' r in
    (
      Reach-trans there (backward_lem b' a' b'' a'' st),
      Reach-trans back (forward_lem b' a' b'' a'' st),
    )

-- A link that is out of service and has no event to report.
pub record IsOut (m : RetransmissionMethod) (l : Mtp2Link) : Type 0 where
  pub state : l.state ≡ Mtp2State.out_of_service
  pub method : l.config.method ≡ m
  pub events : l.events ≡ []

pub opened-fields :
    (m : RetransmissionMethod) (l : Mtp2Link)
    → IsOut m l
    → ((start l).tx ≡ Tx.new m) × ((start l).rx ≡ Rx.new m) × ((start l).events ≡ [])
unfolding start begin stop_all_timers
opened-fields m l o = rw o.state (ap Tx.new o.method, ap Rx.new o.method, o.events)

opened-span :
    (m : RetransmissionMethod) (a b : Mtp2Link)
    → IsOut m a
    → IsOut m b
    → span (opened a) (opened b) ≡ Channel.opened m
unfolding opened Channel.opened frames acks
opened-span m a b o p =
    let (tx, _, _) = opened-fields m a o in
    let (_, rx, events) = opened-fields m b p in
    span_ext _ _ tx rx refl refl refl (ap msus events ∙ unfold msus in refl)

-- The MSUs that one end has reported are a beginning of those that the other has submitted.
abbrev pub Delivers : End → End → Type 0
Delivers a b = (rest : List (ℕ × List ℕ)) × (a.submitted ≡ delivered b ++ rest)

-- The same for two links, over any steps of both.
pub links_deliver_in_order :
    (m : RetransmissionMethod) (la lb : Mtp2Link) (a b : End)
    → IsOut m la
    → IsOut m lb
    → Reach (opened la) (opened lb) a b
    → Delivers a b × Delivers b a
links_deliver_in_order m la lb a b o p r =
    let (there, back) = reach_lem (opened la) (opened lb) a b r in
    (
      delivered_in_order m (span a b)
          (subst (λ s. Channel.Reach s (span a b)) (opened-span m la lb o p) there),
      delivered_in_order m (span b a)
          (subst (λ s. Channel.Reach s (span b a)) (opened-span m lb la p o) back),
    )
