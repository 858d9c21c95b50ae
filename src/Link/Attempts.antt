-- ===== src/Link/Attempts.antt =====
-- src/link.rs: proving that errors abort, and how often it is tried again.
use mtp.Base.{
  ℕ, zero, suc, ◌+◌, ◌≤◌, ◌<◌, ◌≡◌, ◌∙◌, ap, ap₂, arith, false, List, [], ◌∷◌, ◌++◌, u32_max, ltb,
  if◌then◌else◌,
}
use mtp.SignalUnit.Header.{SuHeader}
use mtp.SignalUnit.Status.{StatusIndication}
use mtp.SignalUnit.Unit.{lssu}
use mtp.Monitor.Aerm.{restart, record_error, is_tripped}
use mtp.Link.Types.{Mtp2State}
use mtp.Link.Engine.{
  Mtp2Link, emit, stop_all_timers, enter_proving, fail_alignment, proving_aborted,
}
use mtp.Link.Lssu.{upgrade, from_aligned, lssu_at, handle_lssu}
use mtp.Link.Inbound.{dispatch, monitor, handle_su, proving_error, handle_corrupted_su}
use mtp.Link.Run.{Call, step, run, run-append}

-- A number of corrupted units.
abbrev pub corrupted : ℕ → List Call
corrupted zero = []
corrupted (suc n) = Call.handle_corrupted_su ∷ corrupted n

-- What an aborted attempt leads to.
abbrev pub aborted : Mtp2Link → Mtp2State
aborted l =
    if ltb l.proving_attempt l.config.proving_attempts
    then Mtp2State.aligned
    else Mtp2State.out_of_service

-- The fields that count attempts.
abbrev Counted : Mtp2Link → Mtp2Link → Type 0
Counted l l' =
    (l'.proving_attempt ≡ l.proving_attempt) × (l'.config ≡ l.config) × (l'.emergency ≡ l.emergency)

bears-error :
    (l : Mtp2Link)
    → l.state ≡ Mtp2State.proving
    → l.aerm.count + 1 < l.aerm.threshold
    → l.aerm.threshold ≤ u32_max
    → let l' = handle_corrupted_su l in
      (l'.state ≡ Mtp2State.proving)
      × (l'.aerm.count ≡ l.aerm.count + 1)
      × (l'.aerm.threshold ≡ l.aerm.threshold)
      × Counted l l'
unfolding handle_corrupted_su proving_error record_error is_tripped monitor
bears-error l s room fits = ground arith

trips-error :
    (l : Mtp2Link)
    → l.state ≡ Mtp2State.proving
    → l.aerm.count + 1 ≡ l.aerm.threshold
    → l.aerm.threshold ≤ u32_max
    → let l' = handle_corrupted_su l in (l'.state ≡ aborted l) × Counted l l'
unfolding handle_corrupted_su proving_error record_error is_tripped proving_aborted fail_alignment
    emit stop_all_timers
trips-error l s e fits = ground arith

-- The AERM aborts proving with the error that reaches its threshold, and no sooner.
pub run-aborted :
    (n : ℕ) (l : Mtp2Link)
    → l.state ≡ Mtp2State.proving
    → l.aerm.count + suc n ≡ l.aerm.threshold
    → l.aerm.threshold ≤ u32_max
    → ((run (corrupted n) l).state ≡ Mtp2State.proving)
      × ((run (corrupted (suc n)) l).state ≡ aborted l)
      × Counted l (run (corrupted (suc n)) l)
unfolding run step
run-aborted zero l s e fits =
    let (ends, counted) = trips-error l s (omega (arith, e)) fits in (s, ends, counted)
run-aborted (suc n) l s e fits =
    let (s', count, threshold, counted) = bears-error l s (omega (arith, e)) fits in
    let (a, c, m) = counted in
    let l' = handle_corrupted_su l in
    let (proving, ends, counted') =
      run-aborted n l' s' (omega (arith, e, count, threshold)) (omega (arith, threshold)) in
    let (a', c', m') = counted' in
    let same : aborted l' ≡ aborted l =
      ap₂ (λ k d. if ltb k d.proving_attempts then Mtp2State.aligned else Mtp2State.out_of_service)
        a c in
    (proving, ends ∙ same, (a' ∙ a, c' ∙ c, m' ∙ m))

-- A SIN that begins an attempt, and the errors that abort it.
abbrev pub attempt : SuHeader → ℕ → List Call
attempt h errors =
    Call.handle_su (lssu h StatusIndication.normal_alignment false) ∷ corrupted errors

abbrev pub attempts : SuHeader → ℕ → ℕ → List Call
attempts h errors zero = []
attempts h errors (suc n) = attempt h errors ++ attempts h errors n

begins-attempt :
    (h : SuHeader) (l : Mtp2Link)
    → l.state ≡ Mtp2State.aligned
    → l.emergency ≡ false
    → l.proving_attempt < u32_max
    → let l' = handle_su (lssu h StatusIndication.normal_alignment false) l in
      (l'.state ≡ Mtp2State.proving)
      × (l'.proving_attempt ≡ l.proving_attempt + 1)
      × (l'.aerm.count ≡ 0)
      × (l'.aerm.threshold ≡ l.config.aerm_threshold_normal)
      × (l'.config ≡ l.config)
      × (l'.emergency ≡ false)
unfolding handle_su monitor dispatch handle_lssu lssu_at upgrade from_aligned enter_proving restart
begins-attempt h l s e small = ground arith

one-attempt :
    (h : SuHeader) (t : ℕ) (l : Mtp2Link)
    → l.state ≡ Mtp2State.aligned
    → l.emergency ≡ false
    → l.proving_attempt < u32_max
    → l.config.aerm_threshold_normal ≡ suc t
    → suc t ≤ u32_max
    → let l' = run (attempt h (suc t)) l in
      (l'.state ≡ (
        if ltb (l.proving_attempt + 1) l.config.proving_attempts
        then Mtp2State.aligned
        else Mtp2State.out_of_service))
      × (l'.proving_attempt ≡ l.proving_attempt + 1)
      × (l'.config ≡ l.config)
      × (l'.emergency ≡ false)
unfolding run step
one-attempt h t l s e small th fits =
    let l1 = handle_su (lssu h StatusIndication.normal_alignment false) l in
    let (s1, a1, count, threshold, c1, e1) = begins-attempt h l s e small in
    let (_, ends, counted) =
      run-aborted t l1 s1 (omega (arith, count, threshold, th))
        (omega (arith, threshold, th, fits)) in
    let (a, c, m) = counted in
    let same : aborted l1 ≡ (
        if ltb (l.proving_attempt + 1) l.config.proving_attempts
        then Mtp2State.aligned
        else Mtp2State.out_of_service) =
      ap₂ (λ k d. if ltb k d.proving_attempts then Mtp2State.aligned else Mtp2State.out_of_service)
        a1 c1 in
    (ends ∙ same, a ∙ a1, c ∙ c1, m ∙ e1)

-- A normal alignment in Aligned, each of whose attempts at proving is aborted by as many errors as
-- the AERM's threshold, which is positive and fits a `u32`, goes back to Aligned while attempts
-- are left, and goes out of service with just the last attempt that the configuration allows.
pub attempts_exhausted :
    (h : SuHeader) (t n : ℕ) (l : Mtp2Link)
    → l.state ≡ Mtp2State.aligned
    → l.emergency ≡ false
    → l.config.aerm_threshold_normal ≡ suc t
    → suc t ≤ u32_max
    → l.proving_attempt + suc n ≡ l.config.proving_attempts
    → l.config.proving_attempts ≤ u32_max
    → ((run (attempts h (suc t) n) l).state ≡ Mtp2State.aligned)
      × ((run (attempts h (suc t) (suc n)) l).state ≡ Mtp2State.out_of_service)
unfolding run
attempts_exhausted h t zero l s e th fits left max =
    let (ends, a, c, m) = one-attempt h t l s e (omega (arith, left, max)) th fits in
    let last : (run (attempt h (suc t)) l).state ≡ Mtp2State.out_of_service =
      ends ∙ ground (arith, left) in
    (s, ap (λ k. k.state) (run-append (attempt h (suc t)) [] l) ∙ last)
attempts_exhausted h t (suc n) l s e th fits left max =
    let (ends, a, c, m) = one-attempt h t l s e (omega (arith, left, max)) th fits in
    let l' = run (attempt h (suc t)) l in
    let s' : l'.state ≡ Mtp2State.aligned = ends ∙ ground (arith, left) in
    let (aligned, out) =
      attempts_exhausted h t n l' s' m (ap (λ k. k.aerm_threshold_normal) c ∙ th) fits
        (omega (arith, a, left, ap (λ k. k.proving_attempts) c))
        (omega (arith, max, ap (λ k. k.proving_attempts) c)) in
    (
      ap (λ k. k.state) (run-append (attempt h (suc t)) (attempts h (suc t) n) l) ∙ aligned,
      ap (λ k. k.state) (run-append (attempt h (suc t)) (attempts h (suc t) (suc n)) l) ∙ out,
    )
