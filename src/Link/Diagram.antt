-- ===== src/Link/Diagram.antt =====
-- src/link.rs: the state diagram of a link (Q.703, figures 7 to 13).
pub mod States
pub mod Moves
use mtp.Base.{◌≡◌, refl, arith, Bool, true, false, ◌⊎◌, inl, inr, ℕ, List, sym, some, none, Option}
use mtp.SignalUnit.Status.{StatusIndication}
use mtp.SignalUnit.Header.{SuHeader}
use mtp.SignalUnit.Unit.{SignalUnit, fisu, lssu, msu}
use mtp.Error.{Result, ok, err}
use mtp.Monitor.Suerm.{record_su}
use mtp.Link.Types.{Mtp2State}
use mtp.Link.Engine.{
  Mtp2Link, emit, stop_all_timers, enter_proving, enter_in_service, fail_alignment,
  fail_out_of_service, proving_succeeded, proving_aborted, poll_event,
}
use mtp.Link.Manage.{begin, outage_at, recovered_at, submit_msu}
use mtp.Link.Manage
use mtp.Link.Outbound.{choose, in_service_su, transmit_frame, guard_t7, finish, poll_transmit}
use mtp.Link.Lssu.{
  upgrade, from_not_aligned, from_aligned, from_proving, from_aligned_ready, from_aligned_not_ready,
  from_traffic, lssu_at, handle_lssu,
}
use mtp.Link.Traffic.{
  acknowledged, end_outage, end_busy, report, sequence_check, deliver, process_in_service_su,
  fisu_or_msu_at, handle_fisu_or_msu,
}
use mtp.Link.Inbound.{dispatch, monitor, handle_su, proving_error, handle_corrupted_su}
use mtp.Link.Time.{tick, tick_t3, tick_t4, tick_t1, tick_t6, tick_t7, step_timer}
use mtp.Link.Run.{Call, step, unless_refused}

-- A status by which the peer shows that it is aligning.
abbrev pub is_alignment : StatusIndication → Bool
is_alignment StatusIndication.out_of_alignment = true
is_alignment StatusIndication.normal_alignment = true
is_alignment StatusIndication.emergency_alignment = true
is_alignment _ = false

-- A status by which a peer that has heard this end goes on to proving.
abbrev pub is_proving : StatusIndication → Bool
is_proving StatusIndication.normal_alignment = true
is_proving StatusIndication.emergency_alignment = true
is_proving _ = false

-- A unit by which the peer shows that it has aligned.
abbrev pub is_ready : SignalUnit → Bool
is_ready (fisu _) = true
is_ready (msu _ _ _) = true
is_ready (lssu _ StatusIndication.processor_outage _) = true
is_ready _ = false

-- What may take a link out of service: MTP3, a timer, or what is received.
abbrev pub may_fail : Call → Bool
may_fail Call.stop = true
may_fail Call.tick = true
may_fail Call.handle_corrupted_su = true
may_fail (Call.handle_su _) = true
may_fail _ = false

-- The moves of the diagram, each with the calls that make it.
pub data Move : Call → Mtp2State → Mtp2State → Type 0 where
  stay : {c : Call} {s : Mtp2State} → Move c s s
  power_on : Move Call.start Mtp2State.out_of_service Mtp2State.not_aligned
  fail : {c : Call} {s : Mtp2State} → may_fail c ≡ true → Move c s Mtp2State.out_of_service
  align :
      {h : SuHeader} {s : StatusIndication} {e : Bool}
      → is_alignment s ≡ true
      → Move (Call.handle_su (lssu h s e)) Mtp2State.not_aligned Mtp2State.aligned
  prove :
      {h : SuHeader} {s : StatusIndication} {e : Bool}
      → is_proving s ≡ true
      → Move (Call.handle_su (lssu h s e)) Mtp2State.aligned Mtp2State.proving
  abort : Move Call.handle_corrupted_su Mtp2State.proving Mtp2State.aligned
  fall_back :
      {h : SuHeader} {e : Bool}
      → Move
          (Call.handle_su (lssu h StatusIndication.out_of_alignment e))
          Mtp2State.proving
          Mtp2State.aligned
  succeed : Move Call.tick Mtp2State.proving Mtp2State.aligned_ready
  succeed_not_ready : Move Call.tick Mtp2State.proving Mtp2State.aligned_not_ready
  serve :
      {su : SignalUnit}
      → is_ready su ≡ true
      → Move (Call.handle_su su) Mtp2State.aligned_ready Mtp2State.in_service
  hold : Move Call.local_processor_outage Mtp2State.aligned_ready Mtp2State.aligned_not_ready
  resume : Move Call.local_processor_recovered Mtp2State.aligned_not_ready Mtp2State.aligned_ready
  suspend : Move Call.local_processor_outage Mtp2State.in_service Mtp2State.processor_outage
  restore : Move Call.local_processor_recovered Mtp2State.processor_outage Mtp2State.in_service
