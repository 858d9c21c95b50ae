-- ===== src/Link/Inbound.antt =====
-- src/link.rs: received signal units, correct or corrupted.
use mtp.Base.{Bool, true, false, none, some, if◌then◌else◌}
use mtp.SignalUnit.Unit.{SignalUnit, fisu, lssu, msu}
use mtp.Monitor.Aerm.{record_error}
use mtp.Monitor.Suerm.{record_su}
use mtp.Link.Types.{Mtp2State, OutOfServiceReason}
use mtp.Link.Engine.{Mtp2Link, proving_aborted, fail_out_of_service}
use mtp.Link.Lssu.{carries_traffic, handle_lssu}
use mtp.Link.Traffic.{handle_fisu_or_msu}

-- The `match` of `handle_su` on the unit.
unfoldable pub dispatch : SignalUnit → Mtp2Link → Mtp2Link
dispatch (lssu _ status _) l = handle_lssu status l
dispatch (fisu h) l = handle_fisu_or_msu h none l
dispatch (msu h sio sif) l = handle_fisu_or_msu h (some (sio, sif)) l

-- The SUERM records a unit in service; the flag tells that the link has failed.
unfoldable pub monitor : Bool → Mtp2Link → Mtp2Link × Bool
monitor in_error l =
    if carries_traffic l.state
    then (let (m, failed) = record_su in_error l.suerm in (record l { suerm = m }, failed))
    else (l, false)

-- `Mtp2Link::handle_su`.
unfoldable pub handle_su : SignalUnit → Mtp2Link → Mtp2Link
handle_su su l =
    let (l', failed) = monitor false l in
    if failed then fail_out_of_service OutOfServiceReason.suerm_failure l' else dispatch su l'

-- The first test of `handle_corrupted_su`: the AERM counts while proving.
unfoldable pub proving_error : Mtp2Link → Mtp2Link × Bool
proving_error l = elim l.state [
  | Mtp2State.proving ↦ (let (m, tripped) = record_error l.aerm in (record l { aerm = m }, tripped))
  | _ ↦ (l, false)
]

-- `Mtp2Link::handle_corrupted_su`.
unfoldable pub handle_corrupted_su : Mtp2Link → Mtp2Link
handle_corrupted_su l =
    let (l', tripped) = proving_error l in
    if tripped
    then proving_aborted l'
    else (let (l'', failed) = monitor true l' in
        if failed then fail_out_of_service OutOfServiceReason.suerm_failure l'' else l'')
