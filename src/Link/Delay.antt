-- ===== src/Link/Delay.antt =====
-- src/link.rs: the guard T7 of acknowledgements.
use mtp.Base.{
  ℕ, zero, suc, ◌-◌, ◌≤◌, ◌<◌, ◌≡◌, refl, sym, ◌∙◌, ap, arith, Bool, true, false, List, [], ◌∷◌,
  ◌++◌, ◌+◌, some,
}
use mtp.SignalUnit.Header.{SuHeader}
use mtp.SignalUnit.Status.{StatusIndication}
use mtp.SignalUnit.Unit.{SignalUnit, lssu}
use mtp.Monitor.Suerm.{Suerm, record_su}
use mtp.Link.Types.{Mtp2State, Event, OutOfServiceReason}
use mtp.Link.Engine.{Mtp2Link, emit, stop_all_timers, fail_out_of_service}
use mtp.Link.Lssu.{upgrade, from_traffic, lssu_at, handle_lssu}
use mtp.Link.Inbound.{dispatch, monitor, handle_su}
use mtp.Link.Time.{step_timer, tick_t7, tick_t6, tick_t1, tick_t4, tick_t3, tick}
use mtp.Link.Invariant.{Inv}
use mtp.Link.Run.{Call, step, step-Inv, run}

-- In each tick the same unit is received.
unfoldable pub each_tick : SignalUnit → ℕ → List Call
each_tick su zero = []
each_tick su (suc n) = Call.handle_su su ∷ Call.tick ∷ each_tick su n

-- A monitor that good units do not fail.
pub record IsSound (m : Suerm) : Type 0 where
  pub below : m.count < m.threshold
  pub sound : m.failed ≡ false

pub record_su-IsSound :
    (m : Suerm) → IsSound m → IsSound (record_su false m).0 × ((record_su false m).1 ≡ false)
unfolding record_su
record_su-IsSound m s = ground arith

-- A link with outstanding MSUs in service, whose peer is congested; `r` ticks are left on T7.
pub record IsWaiting (r : ℕ) (l : Mtp2Link) : Type 0 where
  pub inv : Inv l
  pub state : l.state ≡ Mtp2State.in_service
  pub busy : l.remote_busy ≡ true
  pub sound : IsSound l.suerm
  pub t7 : l.t7 ≡ some r
  pub t6 : 2 ≤ l.config.t6_remote_congestion

handle_su-sib :
    (h : SuHeader) (x : Bool) (r : ℕ) (l : Mtp2Link)
    → IsWaiting r l
    → handle_su (lssu h StatusIndication.busy x) l
      ≡ record l { suerm = (record_su false l.suerm).0; t6 = some l.config.t6_remote_congestion }
unfolding handle_su monitor dispatch handle_lssu lssu_at upgrade from_traffic
handle_su-sib h x r l w = ground (arith, record_su-IsSound l.suerm w.sound)

module _ (h : SuHeader) (x : Bool) (l : Mtp2Link) where
  abbrev sib : Mtp2Link
  sib = handle_su (lssu h StatusIndication.busy x) l

  sib-fields :
      (r : ℕ)
      → IsWaiting r l
      → (sib.state ≡ Mtp2State.in_service)
        × (sib.remote_busy ≡ true)
        × IsSound sib.suerm
        × (sib.t7 ≡ some r)
        × (2 ≤ sib.config.t6_remote_congestion)
        × (sib.t6 ≡ some sib.config.t6_remote_congestion)
        × (sib.events ≡ l.events)
  sib-fields r w =
      rw (handle_su-sib h x r l w)
        (w.state, w.busy, (record_su-IsSound l.suerm w.sound).0, w.t7, w.t6, refl, refl)

  sib-Inv : Inv l → Inv sib
  sib-Inv v = unfold step in step-Inv (Call.handle_su (lssu h StatusIndication.busy x)) l v

-- A tick while T6 has two ticks to run or more.
tick-waiting :
    (r : ℕ) (l : Mtp2Link)
    → Inv l
    → l.state ≡ Mtp2State.in_service
    → l.t7 ≡ some (1 + r)
    → l.t6 ≡ some l.config.t6_remote_congestion
    → 2 ≤ l.config.t6_remote_congestion
    → 1 ≤ r
    → tick l ≡ record l { t6 = some (l.config.t6_remote_congestion - 1); t7 = some r }
unfolding tick tick_t3 tick_t4 tick_t1 tick_t6 tick_t7 step_timer
tick-waiting r l v s e f two pos = ground arith

tick-expires :
    (l : Mtp2Link)
    → Inv l
    → l.state ≡ Mtp2State.in_service
    → l.t7 ≡ some 1
    → l.t6 ≡ some l.config.t6_remote_congestion
    → 2 ≤ l.config.t6_remote_congestion
    → ((tick l).state ≡ Mtp2State.out_of_service)
      × ((tick l).events ≡ l.events ++ (Event.out_of_service OutOfServiceReason.t7_expired ∷ []))
unfolding tick tick_t3 tick_t4 tick_t1 tick_t6 tick_t7 step_timer fail_out_of_service emit
    stop_all_timers
tick-expires l v s e f two = ground arith

round-IsWaiting :
    (h : SuHeader) (x : Bool) (r : ℕ) (l : Mtp2Link)
    → IsWaiting (1 + r) l
    → 1 ≤ r
    → IsWaiting r (tick (sib h x l)) × ((tick (sib h x l)).events ≡ l.events)
round-IsWaiting h x r l w pos =
    let l' = sib h x l in
    let (state, busy, sound, t7, t6, restarted, events) = sib-fields h x l (1 + r) w in
    let v = sib-Inv h x l w.inv in
    let step_eq = tick-waiting r l' v state t7 restarted t6 pos in
    let kept : Inv (tick l') = unfold step in step-Inv Call.tick l' v in
    (
      record {
        inv = kept;
        state = ap (λ k. k.state) step_eq ∙ state;
        busy = ap (λ k. k.remote_busy) step_eq ∙ busy;
        sound = rw step_eq sound;
        t7 = ap (λ k. k.t7) step_eq;
        t6 = rw step_eq t6;
      },
      ap (λ k. k.events) step_eq ∙ events,
    )

-- T7 is not stopped while the peer is congested: a well-formed link in service on which T7 runs and
-- whose SUERM is sound, and whose congested peer sends SIB in each tick, goes out of service with T7
-- as the reason when the ticks left on it are over, although T6, the guard of congestion, is of two
-- ticks or more and starts anew with each SIB.
pub busy_peer_expires_t7 :
    (h : SuHeader) (x : Bool) (r : ℕ) (l : Mtp2Link)
    → IsWaiting (suc r) l
    → let l' = run (each_tick (lssu h StatusIndication.busy x) (suc r)) l in
      (l'.state ≡ Mtp2State.out_of_service)
      × (l'.events ≡ l.events ++ (Event.out_of_service OutOfServiceReason.t7_expired ∷ []))
unfolding run each_tick step
busy_peer_expires_t7 h x zero l w =
    let (state, busy, sound, t7, t6, restarted, events) = sib-fields h x l 1 w in
    let (out, told) = tick-expires (sib h x l) (sib-Inv h x l w.inv) state t7 restarted t6 in
    (out, told ∙ ap (λ es. es ++ (Event.out_of_service OutOfServiceReason.t7_expired ∷ [])) events)
busy_peer_expires_t7 h x (suc r) l w =
    let p : suc (suc r) ≡ 1 + suc r = omega arith in
    let (w', events) = round-IsWaiting h x (suc r) l (rw (sym p) w) (omega arith) in
    let (out, told) = busy_peer_expires_t7 h x r (tick (sib h x l)) w' in
    (out, told ∙ ap (λ es. es ++ (Event.out_of_service OutOfServiceReason.t7_expired ∷ [])) events)
