-- ===== src/Link/Silence.antt =====
-- src/link.rs: the guards T1, T2 and T3 of an alignment.
use mtp.Base.{ℕ, zero, suc, ◌+◌, ◌≤◌, ◌≡◌, refl, ◌∙◌, ap, arith, List, [], ◌∷◌, ◌++◌, Option, some}
use mtp.Link.Types.{Mtp2State, AlignmentFailure, Event}
use mtp.Link.Engine.{Mtp2Link, emit, stop_all_timers, fail_alignment}
use mtp.Link.Time.{step_timer, tick_t7, tick_t6, tick_t1, tick_t4, tick_t3, tick}
use mtp.Link.Invariant.{Inv}
use mtp.Link.Run.{Call, step, step-Inv, run}

-- A state in which a link waits for its peer.
pub data Waiting : Type 0 where
  not_aligned aligned aligned_ready : Waiting

abbrev pub state_of : Waiting → Mtp2State
state_of not_aligned = Mtp2State.not_aligned
state_of aligned = Mtp2State.aligned
state_of aligned_ready = Mtp2State.aligned_ready

-- The timer that guards it, and the failure that its expiry is.
abbrev pub guard_of : Waiting → Mtp2Link → Option ℕ
guard_of not_aligned l = l.t2
guard_of aligned l = l.t3
guard_of aligned_ready l = l.t1

abbrev pub failure : Waiting → AlignmentFailure
failure not_aligned = AlignmentFailure.t2_expired
failure aligned = AlignmentFailure.t3_expired
failure aligned_ready = AlignmentFailure.t1_expired

abbrev pub silence : ℕ → List Call
silence zero = []
silence (suc n) = Call.tick ∷ silence n

module _ (l : Mtp2Link) (v : Inv l) where
  tick-guard :
      (w : Waiting) (r : ℕ)
      → l.state ≡ state_of w
      → guard_of w l ≡ some (1 + r)
      → 1 ≤ r
      → ((tick l).state ≡ state_of w)
        × (guard_of w (tick l) ≡ some r)
        × ((tick l).events ≡ l.events)
  unfolding tick tick_t3 tick_t4 tick_t1 tick_t6 tick_t7 step_timer
  tick-guard not_aligned r s g pos = ground arith
  tick-guard aligned r s g pos = ground arith
  tick-guard aligned_ready r s g pos = ground arith

  tick-failure :
      (w : Waiting)
      → l.state ≡ state_of w
      → guard_of w l ≡ some 1
      → ((tick l).state ≡ Mtp2State.out_of_service)
        × ((tick l).events ≡ l.events ++ (Event.alignment_failed (failure w) ∷ []))
  unfolding tick tick_t3 tick_t4 tick_t1 step_timer fail_alignment emit stop_all_timers
  tick-failure not_aligned s g = ground arith
  tick-failure aligned s g = ground arith
  tick-failure aligned_ready s g = ground arith

-- A well-formed link that waits in Not Aligned, Aligned or Aligned Ready for a peer that stays silent
-- waits there, without an event, for all the ticks but one that T2, T3 or T1 has to run, and with the
-- last goes out of service and reports the failure of the alignment with that timer as the reason.
pub silence_fails :
    (w : Waiting) (n : ℕ) (l : Mtp2Link)
    → Inv l
    → l.state ≡ state_of w
    → guard_of w l ≡ some (suc n)
    → ((run (silence n) l).state ≡ state_of w)
      × ((run (silence n) l).events ≡ l.events)
      × ((run (silence (suc n)) l).state ≡ Mtp2State.out_of_service)
      × ((run (silence (suc n)) l).events ≡ l.events ++ (Event.alignment_failed (failure w) ∷ []))
unfolding run step
silence_fails w zero l v s g = let (out, told) = tick-failure l v w s g in (s, refl, out, told)
silence_fails w (suc n) l v s g =
    let p : suc (suc n) ≡ 1 + suc n = omega arith in
    let (s', g', same) = tick-guard l v w (suc n) s (g ∙ ap some p) (omega arith) in
    let v' : Inv (tick l) = unfold step in step-Inv Call.tick l v in
    let (stays, quiet, out, told) = silence_fails w n (tick l) v' s' g' in
    (
      stays,
      quiet ∙ same,
      out,
      told ∙ ap (λ es. es ++ (Event.alignment_failed (failure w) ∷ [])) same,
    )
