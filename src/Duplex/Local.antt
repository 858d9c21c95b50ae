-- ===== src/Duplex/Local.antt =====
-- src/link.rs: the calls that concern one end of two links.
use mtp.Base.{ℕ, List, ◌∷◌, ◌≡◌, refl, arith, some}
use mtp.Error.{ok}
use mtp.Retransmission.Tx.{submit}
use mtp.Link.Types.{Event}
use mtp.Link.Engine.{Mtp2Link, poll_event, emit, stop_all_timers}
use mtp.Link.Manage.{submit_msu}
use mtp.Link.Manage
use mtp.Link.Run.{Call, step}
use mtp.Link.Wire.Kept.{tick-Same, corrupted-Same, outage-Same, recovered-Same}
use mtp.Duplex.{IsLocal}
use mtp.Duplex.Quiet.{tick-Quiet, corrupted-Quiet, outage-Quiet, recovered-Quiet, stop-Quiet}
use mtp.Duplex.Taken.{Idle}

pub local-Idle : (c : Call) → IsLocal c → (l : Mtp2Link) → Idle l (step c l)
unfolding step
local-Idle _ IsLocal.stop l = record {
  same = unfold Manage.stop emit stop_all_timers in (refl, refl);
  quiet = stop-Quiet l;
}
local-Idle _ IsLocal.tick l = record { same = tick-Same l; quiet = tick-Quiet l }
local-Idle _ IsLocal.handle_corrupted_su l = record {
  same = corrupted-Same l;
  quiet = corrupted-Quiet l;
}
local-Idle _ (IsLocal.set_emergency b) l =
    unfold Manage.set_emergency in record { same = (refl, refl); quiet = refl }
local-Idle _ IsLocal.local_processor_outage l = record {
  same = outage-Same l;
  quiet = outage-Quiet l;
}
local-Idle _ IsLocal.local_processor_recovered l = record {
  same = recovered-Same l;
  quiet = recovered-Quiet l;
}
local-Idle _ IsLocal.local_busy l =
    unfold Manage.local_busy in record { same = (refl, refl); quiet = refl }
local-Idle _ IsLocal.local_busy_ended l =
    unfold Manage.local_busy_ended in record { same = (refl, refl); quiet = refl }

pub submit_lem :
    (sio : ℕ) (sif : List ℕ) (l l' : Mtp2Link)
    → submit_msu sio sif l ≡ ok l'
    → (l'.tx ≡ submit sio sif l.tx) × (l'.rx ≡ l.rx) × (l'.events ≡ l.events)
unfolding submit_msu
submit_lem sio sif l l' e = ground arith

pub poll_event_lem :
    (l l' : Mtp2Link) (ev : Event)
    → poll_event l ≡ (l', some ev)
    → (l'.tx ≡ l.tx) × (l'.rx ≡ l.rx) × (l.events ≡ ev ∷ l'.events)
unfolding poll_event
poll_event_lem l l' ev e = ground arith
