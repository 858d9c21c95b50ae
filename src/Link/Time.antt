-- ===== src/Link/Time.antt =====
-- src/link.rs: the timers.
use mtp.Base.{ℕ, ◌-◌, Bool, true, false, ◌&&◌, Option, none, some, leb, if◌then◌else◌}
use mtp.Link.Types.{Mtp2State, OutOfServiceReason, AlignmentFailure}
use mtp.Link.Engine.{Mtp2Link, proving_succeeded, fail_alignment, fail_out_of_service}
use mtp.Link.Lssu.{carries_traffic}

-- `step_timer`: the timer afterwards, and whether it expired.
unfoldable pub step_timer : Option ℕ → Option ℕ × Bool
step_timer none = (none, false)
step_timer (some remaining) =
    if leb remaining 1 then (none, true) else (some (remaining - 1), false)

abbrev pub is_state : Mtp2State → Mtp2State → Bool
is_state Mtp2State.not_aligned Mtp2State.not_aligned = true
is_state Mtp2State.aligned Mtp2State.aligned = true
is_state Mtp2State.proving Mtp2State.proving = true
is_state Mtp2State.aligned_ready Mtp2State.aligned_ready = true
is_state _ _ = false

-- The statements of `tick` from the last to the first: each steps its timer, and returns early
-- when that expires in the state that it guards.
unfoldable pub tick_t7 : Mtp2Link → Mtp2Link
tick_t7 l =
    let (t7, expired) = step_timer l.t7 in
    let l' = record l { t7 = t7 } in
    if expired && carries_traffic l.state
    then fail_out_of_service OutOfServiceReason.t7_expired l'
    else l'

unfoldable pub tick_t6 : Mtp2Link → Mtp2Link
tick_t6 l =
    let (t6, expired) = step_timer l.t6 in
    let l' = record l { t6 = t6 } in
    if expired && carries_traffic l.state
    then fail_out_of_service OutOfServiceReason.t6_expired l'
    else tick_t7 l'

unfoldable pub tick_t1 : Mtp2Link → Mtp2Link
tick_t1 l =
    let (t1, expired) = step_timer l.t1 in
    let l' = record l { t1 = t1 } in
    if expired && is_state Mtp2State.aligned_ready l.state
    then fail_alignment AlignmentFailure.t1_expired l'
    else tick_t6 l'

unfoldable pub tick_t4 : Mtp2Link → Mtp2Link
tick_t4 l =
    let (t4, expired) = step_timer l.t4 in
    let l' = record l { t4 = t4 } in
    if expired && is_state Mtp2State.proving l.state then proving_succeeded l' else tick_t1 l'

unfoldable pub tick_t3 : Mtp2Link → Mtp2Link
tick_t3 l =
    let (t3, expired) = step_timer l.t3 in
    let l' = record l { t3 = t3 } in
    if expired && is_state Mtp2State.aligned l.state
    then fail_alignment AlignmentFailure.t3_expired l'
    else tick_t4 l'

-- `Mtp2Link::tick`.
unfoldable pub tick : Mtp2Link → Mtp2Link
tick l =
    let (t2, expired) = step_timer l.t2 in
    let l' = record l { t2 = t2 } in
    if expired && is_state Mtp2State.not_aligned l.state
    then fail_alignment AlignmentFailure.t2_expired l'
    else tick_t3 l'
