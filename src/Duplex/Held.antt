-- ===== src/Duplex/Held.antt =====
-- src/link.rs: a link in service whose peer is congested.
use mtp.Base.{
  ℕ, suc, ◌<◌, ◌≤◌, ◌≡◌, ◌-◌, ◌⊎◌, inl, inr, refl, ◌∙◌, ap, arith, subst, true, false, Bool, List,
  [], ◌∷◌, append-nil, if◌then◌else◌, ◌++◌, none, some,
}
use mtp.SignalUnit.Header.{SuHeader}
use mtp.SignalUnit.Status.{StatusIndication}
use mtp.SignalUnit.Unit.{fisu, lssu}
use mtp.SignalUnit.Build
use mtp.Monitor.Suerm.{record_su}
use mtp.Link.Types.{Event, Mtp2State}
use mtp.Link.Engine.{Mtp2Link, emit}
use mtp.Link.Outbound.{
  header_for_control, in_service_su, transmit_frame, choose, guard_t7, finish, poll_transmit,
}
use mtp.Link.Lssu.{handle_lssu, lssu_at, upgrade, from_traffic}
use mtp.Link.Inbound.{dispatch, monitor, handle_su}
use mtp.Link.Time.{step_timer, tick_t7, tick_t6, tick_t1, tick_t4, tick_t3, tick}
use mtp.Link.Invariant.{Inv}
use mtp.Link.Run.{Call, step, step-Inv}
use mtp.Link.Delay.{IsSound, record_su-IsSound}

-- T7 does not expire within `k` ticks.
abbrev pub Lasts : ℕ → Mtp2Link → Type 0
Lasts k l = (l.t7 ≡ none) ⊎ ((r : ℕ) × (l.t7 ≡ some r) × (k < r))

-- A link that can bear `k` ticks of the peer's congestion.
pub record Bears (k : ℕ) (l : Mtp2Link) : Type 0 where
  pub inv : Inv l
  pub state : l.state ≡ Mtp2State.in_service
  pub up : l.remote_processor_outage ≡ false
  pub sound : IsSound l.suerm
  pub free : l.local_busy ≡ false
  pub lasts : Lasts k l
  pub delay : k < l.config.t7_excessive_delay
  pub two : 2 ≤ l.config.t7_excessive_delay
  pub guard : 2 ≤ l.config.t6_remote_congestion

-- The same after a unit of the peer's congestion.
pub record IsHeld (k : ℕ) (l : Mtp2Link) : Type 0 where
  pub bears : Bears k l
  pub busy : l.remote_busy ≡ true

-- A tick that T6 and T7 survive.
tick-held :
    (k : ℕ) (l : Mtp2Link)
    → Inv l
    → l.state ≡ Mtp2State.in_service
    → l.t6 ≡ some l.config.t6_remote_congestion
    → 2 ≤ l.config.t6_remote_congestion
    → Lasts (suc k) l
    → tick l ≡ record l { t6 = (step_timer l.t6).0; t7 = (step_timer l.t7).0 }
unfolding tick tick_t3 tick_t4 tick_t1 tick_t6 tick_t7 step_timer
tick-held k l v s t two (inl e) = ground arith
tick-held k l v s t two (inr (r, e, m)) = ground arith

step_timer-Lasts :
    (k : ℕ) (l : Mtp2Link) → Lasts (suc k) l → Lasts k (record l { t7 = (step_timer l.t7).0 })
unfolding step_timer
step_timer-Lasts k l (inl e) = inl (rw e refl)
step_timer-Lasts k l (inr (r, e, m)) = inr (r - 1, ground arith, omega (arith, m))

-- What MTP3 is told of a peer's congestion.
abbrev pub noticed : Mtp2Link → List Event
noticed l = if l.remote_busy then [] else Event.remote_busy ∷ []

-- A SIB comes in, and time passes by one tick.
module _ (h : SuHeader) (x : Bool) (k : ℕ) (l : Mtp2Link) (b : Bears (suc k) l) where
  abbrev told : Mtp2Link
  told = record l {
    suerm = (record_su false l.suerm).0;
    remote_busy = true;
    t6 = some l.config.t6_remote_congestion;
    events = l.events ++ noticed l;
  }

  told_lem : handle_su (lssu h StatusIndication.busy x) l ≡ told
  unfolding handle_su monitor dispatch handle_lssu lssu_at upgrade from_traffic emit
  told_lem = ground (arith, b.state, record_su-IsSound l.suerm b.sound, append-nil l.events)

  told-Inv : Inv told
  told-Inv =
      subst Inv told_lem
        (unfold step in step-Inv (Call.handle_su (lssu h StatusIndication.busy x)) l b.inv)

  pub held_lem :
      let l' = tick (handle_su (lssu h StatusIndication.busy x) l) in
      IsHeld k l' × (l'.tx ≡ l.tx) × (l'.rx ≡ l.rx) × (l'.events ≡ l.events ++ noticed l)
  held_lem =
      let ticked = tick-held k told told-Inv b.state refl b.guard b.lasts in
      let e : tick (handle_su (lssu h StatusIndication.busy x) l) ≡ _ = ap tick told_lem ∙ ticked in
      rw e (
        record {
          bears = record {
            inv = subst Inv ticked (unfold step in step-Inv Call.tick told told-Inv);
            state = b.state;
            up = b.up;
            sound = (record_su-IsSound l.suerm b.sound).0;
            free = b.free;
            lasts = step_timer-Lasts k l b.lasts;
            delay = omega (arith, b.delay);
            two = b.two;
            guard = b.guard;
          };
          busy = refl;
        },
        refl,
        refl,
        refl,
      )

-- What a poll in service leaves as it is; T7 may start.
polled_fields :
    (l : Mtp2Link)
    → l.state ≡ Mtp2State.in_service
    → let l' = (poll_transmit l).0 in
      (l'.state ≡ l.state)
      × (l'.remote_processor_outage ≡ l.remote_processor_outage)
      × (l'.remote_busy ≡ l.remote_busy)
      × (l'.suerm ≡ l.suerm)
      × (l'.local_busy ≡ l.local_busy)
      × (l'.config ≡ l.config)
      × ((l'.t7 ≡ l.t7) ⊎ (l'.t7 ≡ some l.config.t7_excessive_delay))
unfolding poll_transmit choose finish in_service_su transmit_frame guard_t7
polled_fields l s = ground arith

pub poll_transmit-Bears : (k : ℕ) (l : Mtp2Link) → Bears k l → Bears k (poll_transmit l).0
poll_transmit-Bears k l b =
    let (state, up, _, suerm, busy, config, t7) = polled_fields l b.state in
    record {
      inv = unfold step in step-Inv Call.poll_transmit l b.inv;
      state = state ∙ b.state;
      up = up ∙ b.up;
      sound = rw suerm b.sound;
      free = busy ∙ b.free;
      lasts = elim t7 [
        | inl e ↦ rw e b.lasts
        | inr e ↦ inr (l.config.t7_excessive_delay, e, b.delay)
      ];
      delay = rw config b.delay;
      two = rw config b.two;
      guard = rw config b.guard;
    }

-- Under the peer's congestion a link sends FISUs only.
pub poll_transmit-held :
    (k : ℕ) (l : Mtp2Link)
    → IsHeld k l
    → poll_transmit l ≡ (guard_t7 l, some (fisu (header_for_control l)))
unfolding poll_transmit choose finish in_service_su Build.fisu
poll_transmit-held k l h = ground (arith, h.bears.state, h.bears.free, h.bears.up, h.busy)
