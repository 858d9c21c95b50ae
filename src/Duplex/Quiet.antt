-- ===== src/Duplex/Quiet.antt =====
-- src/link.rs: which calls report no MSU.
use mtp.Base.{
  ℕ, true, List, [], ◌∷◌, ◌++◌, ◌≡◌, refl, sym, ◌∙◌, ap, arith, Bool, append-nil, append_assoc,
}
use mtp.SignalUnit.Status.{StatusIndication}
use mtp.Link.Types.{Event, Mtp2State, AlignmentFailure, OutOfServiceReason}
use mtp.Link.Engine.{
  Mtp2Link, emit, stop_all_timers, enter_in_service, enter_proving, fail_alignment,
  fail_out_of_service, proving_succeeded, proving_aborted,
}
use mtp.Link.Manage.{outage_at, recovered_at}
use mtp.Link.Manage
use mtp.Link.Lssu.{
  upgrade, from_not_aligned, from_aligned, from_proving, from_aligned_ready, from_aligned_not_ready,
  from_traffic, lssu_at, handle_lssu,
}
use mtp.Link.Traffic.{end_outage, end_busy}
use mtp.Link.Inbound.{monitor, proving_error, handle_corrupted_su}
use mtp.Link.Time.{step_timer, tick_t7, tick_t6, tick_t1, tick_t4, tick_t3, tick}

-- The MSUs among the events.
abbrev pub msu_of : Event → List (ℕ × List ℕ)
msu_of (Event.msu sio sif) = (sio, sif) ∷ []
msu_of _ = []

unfoldable pub msus : List Event → List (ℕ × List ℕ)
msus [] = []
msus (e ∷ es) = msu_of e ++ msus es

pub msus-append : (xs ys : List Event) → msus (xs ++ ys) ≡ msus xs ++ msus ys
unfolding msus
msus-append [] ys = refl
msus-append (x ∷ xs) ys =
    ap (λ k. msu_of x ++ k) (msus-append xs ys) ∙ sym (append_assoc (msu_of x) (msus xs) (msus ys))

pub msus-snoc : (es : List Event) (e : Event) → msus (es ++ (e ∷ [])) ≡ msus es ++ msu_of e
msus-snoc es e =
    msus-append es (e ∷ []) ∙ ap (λ k. msus es ++ k) (unfold msus in append-nil (msu_of e))

-- No MSU is reported.
abbrev pub Quiet : Mtp2Link → Mtp2Link → Type 0
Quiet l l' = msus l'.events ≡ msus l.events

-- An event of another kind.
pub other : (l : Mtp2Link) (e : Event) → msu_of e ≡ [] → msus (l.events ++ (e ∷ [])) ≡ msus l.events
other l e n = msus-snoc l.events e ∙ ap (λ k. msus l.events ++ k) n ∙ append-nil (msus l.events)

pub fail_alignment-Quiet : (f : AlignmentFailure) (l : Mtp2Link) → Quiet l (fail_alignment f l)
unfolding fail_alignment emit stop_all_timers
fail_alignment-Quiet f l = other l (Event.alignment_failed f) refl

pub fail_out_of_service-Quiet :
    (r : OutOfServiceReason) (l : Mtp2Link) → Quiet l (fail_out_of_service r l)
unfolding fail_out_of_service emit stop_all_timers
fail_out_of_service-Quiet r l = other l (Event.out_of_service r) refl

pub enter_in_service-Quiet : (l : Mtp2Link) → Quiet l (enter_in_service l)
unfolding enter_in_service emit
enter_in_service-Quiet l = other l Event.in_service refl

pub end_outage-Quiet : (l : Mtp2Link) → Quiet l (end_outage l)
unfolding end_outage emit
end_outage-Quiet l = ground (arith, other l Event.remote_processor_recovered refl)

pub end_busy-Quiet : (l : Mtp2Link) → Quiet l (end_busy l)
unfolding end_busy emit
end_busy-Quiet l = ground (arith, other l Event.remote_busy_ended refl)

pub monitor-Quiet : (e : Bool) (l : Mtp2Link) → Quiet l (monitor e l).0
unfolding monitor
monitor-Quiet e l = ground arith

upgrade-Quiet : (i : StatusIndication) (l : Mtp2Link) → Quiet l (upgrade i l)
unfolding upgrade
upgrade-Quiet i l = ground arith

aligned_ready-Quiet : (i : StatusIndication) (l : Mtp2Link) → Quiet l (from_aligned_ready i l)
unfolding from_aligned_ready emit
aligned_ready-Quiet i l = ground (
  arith,
  fail_alignment-Quiet AlignmentFailure.received_sios l,
  enter_in_service-Quiet l,
  other (enter_in_service l) Event.remote_processor_outage refl,
)

traffic-Quiet : (i : StatusIndication) (l : Mtp2Link) → Quiet l (from_traffic i l)
unfolding from_traffic emit
traffic-Quiet i l = ground (
  arith,
  fail_out_of_service-Quiet OutOfServiceReason.received_sios l,
  fail_out_of_service-Quiet OutOfServiceReason.alignment_lost l,
  other l Event.remote_processor_outage refl,
  other l Event.remote_busy refl,
)

lssu_at-Quiet : (st : Mtp2State) (i : StatusIndication) (l : Mtp2Link) → Quiet l (lssu_at st i l)
unfolding lssu_at from_not_aligned from_aligned from_proving from_aligned_not_ready enter_proving
lssu_at-Quiet st i l = ground (
  arith,
  fail_alignment-Quiet AlignmentFailure.received_sios l,
  aligned_ready-Quiet i l,
  traffic-Quiet i l,
)

pub handle_lssu-Quiet : (i : StatusIndication) (l : Mtp2Link) → Quiet l (handle_lssu i l)
unfolding handle_lssu
handle_lssu-Quiet i l = let l' = upgrade i l in lssu_at-Quiet l'.state i l' ∙ upgrade-Quiet i l

proving_error-Quiet : (l : Mtp2Link) → Quiet l (proving_error l).0
unfolding proving_error
proving_error-Quiet l = ground arith

aborted-Quiet : (l : Mtp2Link) → Quiet l (proving_aborted l)
unfolding proving_aborted
aborted-Quiet l = ground (arith, fail_alignment-Quiet AlignmentFailure.aerm_tripped l)

pub corrupted-Quiet : (l : Mtp2Link) → Quiet l (handle_corrupted_su l)
unfolding handle_corrupted_su
corrupted-Quiet l =
    let l' = (proving_error l).0 in
    let m = (monitor true l').0 in
    ground (
      arith,
      proving_error-Quiet l,
      aborted-Quiet l',
      monitor-Quiet true l',
      fail_out_of_service-Quiet OutOfServiceReason.suerm_failure m,
    )

tick_t6-Quiet : (l : Mtp2Link) → Quiet l (tick_t6 l)
unfolding tick_t6 tick_t7
tick_t6-Quiet l =
    let l6 = record l { t6 = (step_timer l.t6).0 } in
    let l7 = record l6 { t7 = (step_timer l.t7).0 } in
    ground (
      arith,
      fail_out_of_service-Quiet OutOfServiceReason.t6_expired l6,
      fail_out_of_service-Quiet OutOfServiceReason.t7_expired l7,
    )

tick_t1-Quiet : (l : Mtp2Link) → Quiet l (tick_t1 l)
unfolding tick_t1
tick_t1-Quiet l =
    let l1 = record l { t1 = (step_timer l.t1).0 } in
    ground (arith, fail_alignment-Quiet AlignmentFailure.t1_expired l1, tick_t6-Quiet l1)

tick_t4-Quiet : (l : Mtp2Link) → Quiet l (tick_t4 l)
unfolding tick_t4 proving_succeeded
tick_t4-Quiet l = ground (arith, tick_t1-Quiet (record l { t4 = (step_timer l.t4).0 }))

tick_t3-Quiet : (l : Mtp2Link) → Quiet l (tick_t3 l)
unfolding tick_t3
tick_t3-Quiet l =
    let l3 = record l { t3 = (step_timer l.t3).0 } in
    ground (arith, fail_alignment-Quiet AlignmentFailure.t3_expired l3, tick_t4-Quiet l3)

pub tick-Quiet : (l : Mtp2Link) → Quiet l (tick l)
unfolding tick
tick-Quiet l =
    let l2 = record l { t2 = (step_timer l.t2).0 } in
    ground (arith, fail_alignment-Quiet AlignmentFailure.t2_expired l2, tick_t3-Quiet l2)

pub outage-Quiet : (l : Mtp2Link) → Quiet l (Manage.local_processor_outage l)
unfolding Manage.local_processor_outage outage_at
outage-Quiet l = ground arith

pub recovered-Quiet : (l : Mtp2Link) → Quiet l (Manage.local_processor_recovered l)
unfolding Manage.local_processor_recovered recovered_at
recovered-Quiet l = ground arith

pub stop-Quiet : (l : Mtp2Link) → Quiet l (Manage.stop l)
unfolding Manage.stop emit stop_all_timers
stop-Quiet l = other l (Event.out_of_service OutOfServiceReason.stopped) refl
