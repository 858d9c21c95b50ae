-- ===== src/Link/Proving.antt =====
-- src/link.rs: how long proving lasts, and how many errors it bears.
use mtp.Base.{
  ℕ, ◌+◌, ◌≤◌, ◌<◌, ◌≡◌, sym, refl, arith, Bool, List, [], ◌∷◌, some, u32_max, if◌then◌else◌,
}
use mtp.SignalUnit.Header.{SuHeader}
use mtp.SignalUnit.Status.{StatusIndication}
use mtp.SignalUnit.Unit.{lssu}
use mtp.Monitor.Aerm.{record_error, is_tripped}
use mtp.Link.Types.{Mtp2State}
use mtp.Link.Engine.{Mtp2Link, proving_succeeded}
use mtp.Link.Outbound.{choose, guard_t7, finish, poll_transmit}
use mtp.Link.Lssu.{upgrade, from_proving, lssu_at, handle_lssu}
use mtp.Link.Inbound.{dispatch, monitor, handle_su, proving_error, handle_corrupted_su}
use mtp.Link.Time.{step_timer, tick_t7, tick_t6, tick_t1, tick_t4, tick_t3, tick}
use mtp.Link.Invariant.{Inv}
use mtp.Link.Run.{Call, step, step-Inv, run}

-- The calls of a proving period: ticks, corrupted units, SINs, and polls for a unit to send.
pub data Occurrence : Type 0 where
  ticked erred sent : Occurrence
  heard : SuHeader → Bool → Occurrence

abbrev pub call : Occurrence → Call
call Occurrence.ticked = Call.tick
call Occurrence.erred = Call.handle_corrupted_su
call Occurrence.sent = Call.poll_transmit
call (Occurrence.heard h e) = Call.handle_su (lssu h StatusIndication.normal_alignment e)

abbrev pub calls : List Occurrence → List Call
calls [] = []
calls (e ∷ es) = call e ∷ calls es

abbrev pub ticks : List Occurrence → ℕ
ticks [] = 0
ticks (Occurrence.ticked ∷ es) = 1 + ticks es
ticks (_ ∷ es) = ticks es

abbrev pub errors : List Occurrence → ℕ
errors [] = 0
errors (Occurrence.erred ∷ es) = 1 + errors es
errors (_ ∷ es) = errors es

-- Proving goes on, T4 has `r` ticks to run, and the AERM bears `room` more errors.
pub record IsProving (r room : ℕ) (outage : Bool) (l : Mtp2Link) : Type 0 where
  pub inv : Inv l
  pub state : l.state ≡ Mtp2State.proving
  pub timer : l.t4 ≡ some r
  pub bears : l.aerm.count + room < l.aerm.threshold
  pub cap : l.aerm.threshold ≤ u32_max
  pub local : l.local_processor_outage ≡ outage

-- The same of the link without its invariant.
abbrev Goes : ℕ → ℕ → Bool → Mtp2Link → Type 0
Goes r room o l =
    (l.state ≡ Mtp2State.proving)
    × (l.t4 ≡ some r)
    × (l.aerm.count + room < l.aerm.threshold)
    × (l.aerm.threshold ≤ u32_max)
    × (l.local_processor_outage ≡ o)

-- T4 runs down, and no other timer runs.
tick-Goes :
    (n r m room : ℕ) (o : Bool) (l : Mtp2Link)
    → IsProving n m o l
    → n ≡ 1 + r
    → m ≡ room
    → 1 ≤ r
    → Goes r room o (tick l)
unfolding tick tick_t3 tick_t4 tick_t1 tick_t6 tick_t7 step_timer
tick-Goes n r m room o l p e f pos = ground arith

step-Goes :
    (e : Occurrence) (n r m room : ℕ) (o : Bool) (l : Mtp2Link)
    → IsProving n m o l
    → n ≡ ticks (e ∷ []) + r
    → m ≡ errors (e ∷ []) + room
    → 1 ≤ r
    → Goes r room o (step (call e) l)
unfolding step
step-Goes Occurrence.ticked n r m room o l p e f pos =
    tick-Goes n r m room o l p (omega (arith, e)) (omega (arith, f)) pos
step-Goes Occurrence.erred n r m room o l p e f pos =
    unfold handle_corrupted_su proving_error record_error is_tripped monitor in ground arith
step-Goes Occurrence.sent n r m room o l p e f pos =
    unfold poll_transmit choose finish guard_t7 in ground arith
step-Goes (Occurrence.heard h x) n r m room o l p e f pos =
    unfold handle_su monitor dispatch handle_lssu lssu_at upgrade from_proving in ground arith

step-IsProving :
    (e : Occurrence) (n r m room : ℕ) (o : Bool) (l : Mtp2Link)
    → IsProving n m o l
    → n ≡ ticks (e ∷ []) + r
    → m ≡ errors (e ∷ []) + room
    → 1 ≤ r
    → IsProving r room o (step (call e) l)
step-IsProving e n r m room o l p en em pos =
    let (state, timer, bears, cap, local) = step-Goes e n r m room o l p en em pos in
    record {
      inv = step-Inv (call e) l p.inv;
      state = state;
      timer = timer;
      bears = bears;
      cap = cap;
      local = local;
    }

ticks-cons : (e : Occurrence) (es : List Occurrence) → ticks (e ∷ es) ≡ ticks (e ∷ []) + ticks es
ticks-cons Occurrence.ticked es = omega arith
ticks-cons Occurrence.erred es = omega arith
ticks-cons Occurrence.sent es = omega arith
ticks-cons (Occurrence.heard h x) es = omega arith

errors-cons :
    (e : Occurrence) (es : List Occurrence) → errors (e ∷ es) ≡ errors (e ∷ []) + errors es
errors-cons Occurrence.ticked es = omega arith
errors-cons Occurrence.erred es = omega arith
errors-cons Occurrence.sent es = omega arith
errors-cons (Occurrence.heard h x) es = omega arith

-- While T4 runs and the AERM bears the errors, proving goes on.
run-IsProving :
    (es : List Occurrence) (n r m : ℕ) (o : Bool) (l : Mtp2Link)
    → IsProving n m o l
    → n ≡ ticks es + r
    → m ≡ errors es
    → 1 ≤ r
    → IsProving r 0 o (run (calls es) l)
unfolding run
run-IsProving [] n r m o l p en em pos =
    let a : n ≡ r = omega (arith, en) in
    let b : m ≡ 0 = omega (arith, em) in rw (sym a) (rw (sym b) p)
run-IsProving (e ∷ es) n r m o l p en em pos =
    run-IsProving es (ticks es + r) r (errors es) o (step (call e) l)
      (step-IsProving e n (ticks es + r) m (errors es) o l p (omega (arith, en, ticks-cons e es))
        (omega (arith, em, errors-cons e es)) (omega arith))
      refl refl pos

last-tick :
    (o : Bool) (l : Mtp2Link)
    → IsProving 1 0 o l
    → (tick l).state ≡ (if o then Mtp2State.aligned_not_ready else Mtp2State.aligned_ready)
unfolding tick tick_t3 tick_t4 step_timer proving_succeeded
last-tick o l p = ground arith

-- A well-formed link with T4 running stays in Proving through all ticks of T4 but the last,
-- whatever it sends, whatever SINs it receives, and although corrupted units are received, as long
-- as the AERM bears them; the last tick makes it Aligned Ready, or Aligned Not Ready in a local
-- processor outage.
pub proving_ends :
    (es : List Occurrence) (o : Bool) (l : Mtp2Link)
    → IsProving (ticks es + 1) (errors es) o l
    → ((run (calls es) l).state ≡ Mtp2State.proving)
      × ((step Call.tick (run (calls es) l)).state
          ≡ (if o then Mtp2State.aligned_not_ready else Mtp2State.aligned_ready))
proving_ends es o l p =
    let q = run-IsProving es (ticks es + 1) 1 (errors es) o l p refl refl (omega arith) in
    (q.state, unfold step in last-tick o (run (calls es) l) q)
