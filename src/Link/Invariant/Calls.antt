-- ===== src/Link/Invariant/Calls.antt =====
-- src/link.rs: every public method of a link keeps its invariant.
use mtp.Base.{ℕ, ◌≡◌, arith, Bool, true, false, none, some, List}
use mtp.Error.{ok}
use mtp.SignalUnit.Unit.{SignalUnit, fisu, lssu, msu}
use mtp.Monitor.Suerm.{record_su}
use mtp.Link.Types.{Mtp2State, OutOfServiceReason}
use mtp.Link.Engine.{Mtp2Link, emit, stop_all_timers, poll_event}
use mtp.Link.Manage.{
  begin, start, stop, set_emergency, outage_at, local_processor_outage, recovered_at,
  local_processor_recovered, local_busy, local_busy_ended, submit_msu,
}
use mtp.Link.Outbound.{choose, in_service_su, transmit_frame, guard_t7, finish, poll_transmit}
use mtp.Link.Inbound.{dispatch, monitor, handle_su, proving_error, handle_corrupted_su}
use mtp.Link.Invariant.{Inv}
use mtp.Link.Invariant.Engine.{fail_out_of_service-Inv, proving_aborted-Inv}
use mtp.Link.Invariant.Lssu.{handle_lssu-Inv}
use mtp.Link.Invariant.Traffic.{handle_fisu_or_msu-Inv}

pub poll_event-Inv : (l : Mtp2Link) → Inv l → Inv (poll_event l).0
unfolding poll_event
poll_event-Inv l v = ground arith

pub start-Inv : (l : Mtp2Link) → Inv l → Inv (start l)
unfolding start begin stop_all_timers
start-Inv l v = ground arith

pub stop-Inv : (l : Mtp2Link) → Inv l → Inv (stop l)
unfolding stop emit stop_all_timers
stop-Inv l v = ground arith

pub set_emergency-Inv : (b : Bool) (l : Mtp2Link) → Inv l → Inv (set_emergency b l)
unfolding set_emergency
set_emergency-Inv b l v = ground arith

pub local_processor_outage-Inv : (l : Mtp2Link) → Inv l → Inv (local_processor_outage l)
unfolding local_processor_outage outage_at
local_processor_outage-Inv l v = ground arith

pub local_processor_recovered-Inv : (l : Mtp2Link) → Inv l → Inv (local_processor_recovered l)
unfolding local_processor_recovered recovered_at
local_processor_recovered-Inv l v = ground arith

pub local_busy-Inv : (l : Mtp2Link) → Inv l → Inv (local_busy l)
unfolding local_busy
local_busy-Inv l v = ground arith

pub local_busy_ended-Inv : (l : Mtp2Link) → Inv l → Inv (local_busy_ended l)
unfolding local_busy_ended
local_busy_ended-Inv l v = ground arith

pub submit_msu-Inv :
    (sio : ℕ) (sif : List ℕ) (l : Mtp2Link) {l' : Mtp2Link}
    → submit_msu sio sif l ≡ ok l'
    → Inv l
    → Inv l'
unfolding submit_msu
submit_msu-Inv sio sif l e v = ground arith

transmit-Inv : (l : Mtp2Link) → Inv l → Inv (in_service_su l).0
unfolding in_service_su transmit_frame
transmit-Inv l v = ground arith

guard_t7-Inv : (l : Mtp2Link) → Inv l → Inv (guard_t7 l)
unfolding guard_t7
guard_t7-Inv l v = ground arith

pub poll_transmit-Inv : (l : Mtp2Link) → Inv l → Inv (poll_transmit l).0
unfolding poll_transmit choose finish
poll_transmit-Inv l v =
    ground (arith, guard_t7-Inv l v, guard_t7-Inv (in_service_su l).0 (transmit-Inv l v))

dispatch-Inv : (su : SignalUnit) (l : Mtp2Link) → Inv l → Inv (dispatch su l)
unfolding dispatch
dispatch-Inv (fisu h) l v = handle_fisu_or_msu-Inv h none l v
dispatch-Inv (lssu h status extended) l v = handle_lssu-Inv status l v
dispatch-Inv (msu h sio sif) l v = handle_fisu_or_msu-Inv h (some (sio, sif)) l v

-- A monitor that has not failed leaves a link as well-formed as it was.
pub monitor-Inv : (e : Bool) (l : Mtp2Link) → (monitor e l).1 ≡ false → Inv l → Inv (monitor e l).0
unfolding monitor record_su
monitor-Inv e l h v = ground arith

pub handle_su-Inv : (su : SignalUnit) (l : Mtp2Link) → Inv l → Inv (handle_su su l)
unfolding handle_su
handle_su-Inv su l v = ground (
  arith,
  fail_out_of_service-Inv OutOfServiceReason.suerm_failure (monitor false l).0,
  monitor-Inv false l,
  dispatch-Inv su (monitor false l).0,
)

proving_error-Inv : (l : Mtp2Link) → Inv l → Inv (proving_error l).0
unfolding proving_error
proving_error-Inv l v = ground arith

-- The AERM trips only while proving.
pub proving_error-state :
    (l : Mtp2Link) → (proving_error l).1 ≡ true → (proving_error l).0.state ≡ Mtp2State.proving
unfolding proving_error
proving_error-state l h = ground arith

pub handle_corrupted_su-Inv : (l : Mtp2Link) → Inv l → Inv (handle_corrupted_su l)
unfolding handle_corrupted_su
handle_corrupted_su-Inv l v =
    let (l', tripped) = proving_error l in
    ground (
      arith,
      proving_error-Inv l v,
      proving_error-state l,
      proving_aborted-Inv l',
      fail_out_of_service-Inv OutOfServiceReason.suerm_failure (monitor true l').0,
      monitor-Inv true l',
    )
