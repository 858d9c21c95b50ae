-- ===== src/Link/Reports/Told.antt =====
-- src/link.rs: an emitted event tells what has changed.
use mtp.Base.{List, [], ◌∷◌, ◌++◌, ◌≡◌, refl, arith}
use mtp.Link.Types.{Event, Mtp2State, AlignmentFailure, OutOfServiceReason}
use mtp.Link.Engine.{
  Mtp2Link, emit, stop_all_timers, enter_in_service, fail_alignment, fail_out_of_service,
}
use mtp.Link.Invariant.{Inv}
use mtp.Link.Reports.{View, hear, hear_all, view}

pub hear_all-append :
    (es fs : List Event) (v : View) → hear_all (es ++ fs) v ≡ hear_all fs (hear_all es v)
unfolding hear_all
hear_all-append [] fs v = refl
hear_all-append (e ∷ es) fs v = hear_all-append es fs (hear e v)

-- The events of a link tell what is so, to one that knew `v` before the first of them.
abbrev pub Told : View → Mtp2Link → Type 0
Told v l = hear_all l.events v ≡ view l

pub emitted :
    (v : View) (l : Mtp2Link) (e : Event)
    → hear_all (l.events ++ (e ∷ [])) v ≡ hear e (hear_all l.events v)
unfolding hear_all
emitted v l e = hear_all-append l.events (e ∷ []) v

pub fail_alignment-Told :
    (v : View) (f : AlignmentFailure) (l : Mtp2Link) → Told v (fail_alignment f l)
unfolding fail_alignment emit stop_all_timers
fail_alignment-Told v f l = emitted v l (Event.alignment_failed f)

pub fail_out_of_service-Told :
    (v : View) (r : OutOfServiceReason) (l : Mtp2Link) → Told v (fail_out_of_service r l)
unfolding fail_out_of_service emit stop_all_timers
fail_out_of_service-Told v r l = emitted v l (Event.out_of_service r)

pub enter_in_service-Told :
    (v : View) (l : Mtp2Link)
    → Inv l
    → l.state ≡ Mtp2State.aligned_ready
    → Told v l
    → Told v (enter_in_service l)
unfolding enter_in_service emit
enter_in_service-Told v l inv s h = ground (arith, emitted v l Event.in_service)
