-- ===== src/Duplex/Rise.antt =====
-- src/link.rs: two links that align with each other.
use mtp.Base.{ℕ, zero, suc, ◌+◌, ◌<◌, ◌≤◌, ◌≡◌, arith, false, some, ◌⊎◌}
use mtp.SignalUnit.Header.{SuHeader}
use mtp.SignalUnit.Status.{StatusIndication}
use mtp.SignalUnit.Unit.{SignalUnit, fisu, lssu}
use mtp.SignalUnit.Build
use mtp.Link.Types.{Mtp2State}
use mtp.Link.Engine.{Mtp2Link, enter_proving, proving_succeeded}
use mtp.Link.Outbound.{choose, guard_t7, finish, poll_transmit, header_for_control}
use mtp.Link.Outbound
use mtp.Link.Lssu.{
  upgrade, from_not_aligned, from_aligned, from_proving, from_aligned_ready, lssu_at, handle_lssu,
}
use mtp.Link.Traffic.{fisu_or_msu_at, handle_fisu_or_msu}
use mtp.Link.Inbound.{dispatch, monitor, handle_su}
use mtp.Link.Time.{step_timer, tick_t7, tick_t6, tick_t1, tick_t4, tick_t3, tick}
use mtp.Link.Invariant.{Inv}

-- What an alignment leaves alone.
pub record Keeps (l l' : Mtp2Link) : Type 0 where
  pub config : l'.config ≡ l.config
  pub tx : l'.tx ≡ l.tx
  pub rx : l'.rx ≡ l.rx
  pub emergency : l'.emergency ≡ l.emergency
  pub outage : l'.local_processor_outage ≡ l.local_processor_outage
  pub busy : l'.local_busy ≡ l.local_busy
  pub threshold : l'.suerm.threshold ≡ l.suerm.threshold
  pub events : l'.events ≡ l.events

-- The unit that is sent in each state of a normal alignment.
abbrev pub sio : Mtp2Link → SignalUnit
sio l = lssu (header_for_control l) StatusIndication.out_of_alignment false

abbrev pub sin : Mtp2Link → SignalUnit
sin l = lssu (header_for_control l) StatusIndication.normal_alignment false

pub sends-sio :
    (l : Mtp2Link) → l.state ≡ Mtp2State.not_aligned → poll_transmit l ≡ (l, some (sio l))
unfolding poll_transmit choose finish guard_t7 Outbound.lssu Build.lssu
sends-sio l s = ground arith

pub sends-sin :
    (l : Mtp2Link)
    → (l.state ≡ Mtp2State.aligned) ⊎ (l.state ≡ Mtp2State.proving)
    → l.emergency ≡ false
    → poll_transmit l ≡ (l, some (sin l))
unfolding poll_transmit choose finish guard_t7 Outbound.lssu Build.lssu
sends-sin l s e = ground arith

pub sends-fisu :
    (l : Mtp2Link)
    → l.state ≡ Mtp2State.aligned_ready
    → poll_transmit l ≡ (l, some (fisu (header_for_control l)))
unfolding poll_transmit choose finish guard_t7 Build.fisu
sends-fisu l s = ground arith

-- `r` ticks of proving are left; T1 runs after the last.
abbrev pub Left : ℕ → Mtp2Link → Type 0
Left zero l = (l.state ≡ Mtp2State.aligned_ready) × (l.t1 ≡ some l.config.t1_aligned_ready)
Left (suc r) l = (l.state ≡ Mtp2State.proving) × (l.t4 ≡ some (suc r))

module _ (h : SuHeader) (l : Mtp2Link) where
  pub aligns :
      Inv l
      → l.state ≡ Mtp2State.not_aligned
      → 2 ≤ l.config.t3_aligned
      → let l' = tick (handle_su (lssu h StatusIndication.out_of_alignment false) l) in
        (l'.state ≡ Mtp2State.aligned) × Keeps l l'
  unfolding handle_su monitor dispatch handle_lssu lssu_at upgrade from_not_aligned tick tick_t3
      tick_t4 tick_t1 tick_t6 tick_t7 step_timer
  aligns v s two = ground arith

  pub proves :
      (r : ℕ)
      → Inv l
      → l.state ≡ Mtp2State.aligned
      → l.emergency ≡ false
      → l.local_processor_outage ≡ false
      → l.config.t4_proving_normal ≡ suc r
      → let l' = tick (handle_su (lssu h StatusIndication.normal_alignment false) l) in
        Left r l' × Keeps l l'
  unfolding handle_su monitor dispatch handle_lssu lssu_at upgrade from_aligned enter_proving tick
      tick_t3 tick_t4 tick_t1 tick_t6 tick_t7 step_timer proving_succeeded
  proves zero v s e o t = ground arith
  proves (suc r) v s e o t = ground arith

  pub continues :
      (r : ℕ)
      → Inv l
      → Left (suc r) l
      → l.local_processor_outage ≡ false
      → let l' = tick (handle_su (lssu h StatusIndication.normal_alignment false) l) in
        Left r l' × Keeps l l'
  unfolding handle_su monitor dispatch handle_lssu lssu_at upgrade from_proving tick tick_t3 tick_t4
      tick_t1 tick_t6 tick_t7 step_timer proving_succeeded
  continues zero v s o = ground arith
  continues (suc r) v s o = ground arith

  -- A FISU that comes while proving is ignored.
  pub outlasts :
      (r : ℕ)
      → Inv l
      → Left (suc r) l
      → l.local_processor_outage ≡ false
      → let l' = tick (handle_su (fisu h) l) in Left r l' × Keeps l l'
  unfolding handle_su monitor dispatch handle_fisu_or_msu fisu_or_msu_at tick tick_t3 tick_t4
      tick_t1 tick_t6 tick_t7 step_timer proving_succeeded
  outlasts zero v s o = ground arith
  outlasts (suc r) v s o = ground arith

  -- An SIN that comes once proving is over is ignored, while T1 lasts.
  pub waits :
      (r : ℕ)
      → Inv l
      → l.state ≡ Mtp2State.aligned_ready
      → l.t1 ≡ some (1 + r)
      → 0 < r
      → l.emergency ≡ false
      → let l' = tick (handle_su (lssu h StatusIndication.normal_alignment false) l) in
        (l'.state ≡ Mtp2State.aligned_ready) × (l'.t1 ≡ some r) × Keeps l l'
  unfolding handle_su monitor dispatch handle_lssu lssu_at upgrade from_aligned_ready tick tick_t3
      tick_t4 tick_t1 tick_t6 tick_t7 step_timer
  waits r v s t pos e = ground arith
