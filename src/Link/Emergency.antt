-- ===== src/Link/Emergency.antt =====
-- src/link.rs: two links that prove in an emergency.
use mtp.Base.{ℕ, zero, suc, ◌≤◌, ◌≡◌, arith, Bool, true, false, Option, none, some}
use mtp.SignalUnit.Header.{SuHeader}
use mtp.SignalUnit.Status.{StatusIndication}
use mtp.SignalUnit.Unit.{SignalUnit, lssu}
use mtp.SignalUnit.Build
use mtp.Link.Types.{Mtp2State}
use mtp.Link.Engine.{Mtp2Link, enter_proving}
use mtp.Link.Outbound.{choose, guard_t7, finish, poll_transmit, header_for_control}
use mtp.Link.Outbound
use mtp.Link.Lssu.{upgrade, from_proving, lssu_at, handle_lssu}
use mtp.Link.Inbound.{dispatch, monitor, handle_su}
use mtp.Link.Time.{step_timer, tick_t7, tick_t6, tick_t1, tick_t4, tick_t3, tick}
use mtp.Link.Invariant.{Inv}
use mtp.Link.Run.{Call, step, step-Inv}

-- A link takes what its peer has sent, if anything.
unfoldable pub receive : Option SignalUnit → Mtp2Link → Mtp2Link
receive none l = l
receive (some su) l = handle_su su l

-- Each of two links sends a unit to the other, and then time passes by one tick.
unfoldable pub exchange : Mtp2Link × Mtp2Link → Mtp2Link × Mtp2Link
exchange (a, b) =
    let (a', from_a) = poll_transmit a in
    let (b', from_b) = poll_transmit b in (tick (receive from_b a'), tick (receive from_a b'))

unfoldable pub exchanges : ℕ → Mtp2Link × Mtp2Link → Mtp2Link × Mtp2Link
exchanges zero p = p
exchanges (suc n) p = exchanges n (exchange p)

-- Emergency proving, with a period of two ticks or more.
pub record IsUrgent (l : Mtp2Link) : Type 0 where
  pub inv : Inv l
  pub state : l.state ≡ Mtp2State.proving
  pub emergency : l.emergency ≡ true
  pub period : 2 ≤ l.config.t4_proving_emergency

abbrev sie : Mtp2Link → SignalUnit
sie l = lssu (header_for_control l) StatusIndication.emergency_alignment false

poll_transmit-urgent : (l : Mtp2Link) → IsUrgent l → poll_transmit l ≡ (l, some (sie l))
unfolding poll_transmit choose finish guard_t7 Outbound.lssu Build.lssu
poll_transmit-urgent l u = ground arith

-- T4 starts anew.
handle_su-sie :
    (h : SuHeader) (x : Bool) (l : Mtp2Link)
    → IsUrgent l
    → let l' = handle_su (lssu h StatusIndication.emergency_alignment x) l in
      (l'.state ≡ Mtp2State.proving)
      × (l'.emergency ≡ true)
      × (2 ≤ l'.config.t4_proving_emergency)
      × (l'.t4 ≡ some l'.config.t4_proving_emergency)
unfolding handle_su monitor dispatch handle_lssu lssu_at upgrade from_proving enter_proving
handle_su-sie h x l u = ground arith

tick-urgent :
    (l : Mtp2Link)
    → IsUrgent l
    → l.t4 ≡ some l.config.t4_proving_emergency
    → ((tick l).state ≡ Mtp2State.proving)
      × ((tick l).emergency ≡ true)
      × (2 ≤ (tick l).config.t4_proving_emergency)
unfolding tick tick_t3 tick_t4 tick_t1 tick_t6 tick_t7 step_timer
tick-urgent l u e = ground arith

-- One SIE and one tick.
round-IsUrgent :
    (h : SuHeader) (x : Bool) (l : Mtp2Link)
    → IsUrgent l
    → IsUrgent (tick (handle_su (lssu h StatusIndication.emergency_alignment x) l))
round-IsUrgent h x l u =
    let su = lssu h StatusIndication.emergency_alignment x in
    let l' = handle_su su l in
    let (state, emergency, period, timer) = handle_su-sie h x l u in
    let v : Inv l' = unfold step in step-Inv (Call.handle_su su) l u.inv in
    let u' : IsUrgent l' = record {
      inv = v;
      state = state;
      emergency = emergency;
      period = period;
    } in
    let (state', emergency', period') = tick-urgent l' u' timer in
    record {
      inv = unfold step in step-Inv Call.tick l' v;
      state = state';
      emergency = emergency';
      period = period';
    }

exchange-IsUrgent :
    (a b : Mtp2Link)
    → IsUrgent a
    → IsUrgent b
    → IsUrgent (exchange (a, b)).0 × IsUrgent (exchange (a, b)).1
unfolding exchange receive
exchange-IsUrgent a b u v = rw (poll_transmit-urgent a u) (
    rw (poll_transmit-urgent b v) (
      round-IsUrgent (header_for_control b) false a u,
      round-IsUrgent (header_for_control a) false b v,
    ))

-- Two links in emergency proving, with a T4 of two ticks or more, that exchange a unit in each tick
-- never leave it, however long they go on: each sends SIE while it proves, and each SIE that is
-- received starts T4 anew.
pub exchanges_livelock :
    (n : ℕ) (a b : Mtp2Link)
    → IsUrgent a
    → IsUrgent b
    → ((exchanges n (a, b)).0.state ≡ Mtp2State.proving)
      × ((exchanges n (a, b)).1.state ≡ Mtp2State.proving)
unfolding exchanges
exchanges_livelock zero a b u v = (u.state, v.state)
exchanges_livelock (suc n) a b u v =
    let (u', v') = exchange-IsUrgent a b u v in
    exchanges_livelock n (exchange (a, b)).0 (exchange (a, b)).1 u' v'
