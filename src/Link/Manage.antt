-- ===== src/Link/Manage.antt =====
-- src/link.rs: the primitives of MTP3 and management.
use mtp.Base.{ℕ, ◌+◌, Bool, true, false, none, some, List, length, ltb, if◌then◌else◌}
use mtp.Error.{Result, ok, err, msu_too_large}
use mtp.SignalUnit.Unit.{max_msu_body}
use mtp.Monitor.Aerm.{restart}
use mtp.Monitor.Suerm.{reset}
use mtp.Retransmission.Tx
use mtp.Retransmission.Rx
use mtp.Link.Types.{Mtp2State, OutOfServiceReason, Event}
use mtp.Link.Engine.{Mtp2Link, emit, stop_all_timers}

-- `Mtp2Link::start`, past its guard.
unfoldable pub begin : Mtp2Link → Mtp2Link
begin l =
    let l' = stop_all_timers l in
    record l' {
      active = true;
      emergency = l.config.emergency;
      remote_processor_outage = false;
      remote_busy = false;
      local_busy = false;
      proving_attempt = 0;
      tx = Tx.new l.config.method;
      rx = Rx.new l.config.method;
      suerm = reset l.suerm;
      aerm = restart l.config.aerm_threshold_normal l.aerm;
      state = Mtp2State.not_aligned;
      t2 = some l.config.t2_not_aligned;
    }

-- `Mtp2Link::start`.
unfoldable pub start : Mtp2Link → Mtp2Link
start l = elim l.state [ Mtp2State.out_of_service ↦ begin l | _ ↦ l ]

-- `Mtp2Link::stop`.
unfoldable pub stop : Mtp2Link → Mtp2Link
stop l =
    emit (Event.out_of_service OutOfServiceReason.stopped)
      (record (stop_all_timers (record l { active = false })) { state = Mtp2State.out_of_service })

-- `Mtp2Link::set_emergency`.
unfoldable pub set_emergency : Bool → Mtp2Link → Mtp2Link
set_emergency emergency l = record l { emergency = emergency }

unfoldable pub outage_at : Mtp2State → Mtp2Link → Mtp2Link
outage_at Mtp2State.in_service l = record l { state = Mtp2State.processor_outage }
outage_at Mtp2State.aligned_ready l = record l { t1 = none; state = Mtp2State.aligned_not_ready }
outage_at _ l = l

-- `Mtp2Link::local_processor_outage`.
unfoldable pub local_processor_outage : Mtp2Link → Mtp2Link
local_processor_outage l = outage_at l.state (record l { local_processor_outage = true })

unfoldable pub recovered_at : Mtp2State → Mtp2Link → Mtp2Link
recovered_at Mtp2State.processor_outage l = record l { state = Mtp2State.in_service }
recovered_at Mtp2State.aligned_not_ready l = record l {
  state = Mtp2State.aligned_ready;
  t1 = some l.config.t1_aligned_ready;
}
recovered_at _ l = l

-- `Mtp2Link::local_processor_recovered`.
unfoldable pub local_processor_recovered : Mtp2Link → Mtp2Link
local_processor_recovered l = recovered_at l.state (record l { local_processor_outage = false })

-- `Mtp2Link::local_busy` and `Mtp2Link::local_busy_ended`.
unfoldable pub local_busy : Mtp2Link → Mtp2Link
local_busy l = record l { local_busy = true }

unfoldable pub local_busy_ended : Mtp2Link → Mtp2Link
local_busy_ended l = record l { local_busy = false }

-- `Mtp2Link::submit_msu`.
unfoldable pub submit_msu : ℕ → List ℕ → Mtp2Link → Result Mtp2Link
submit_msu sio sif l =
    let body = 1 + length sif in
    if ltb max_msu_body body
    then err (msu_too_large body)
    else ok (record l { tx = Tx.submit sio sif l.tx })
