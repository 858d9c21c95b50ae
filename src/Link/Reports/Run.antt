-- ===== src/Link/Reports/Run.antt =====
-- src/link.rs: the events that are polled, with those that wait, tell what is so.
use mtp.Base.{ℕ, List, [], ◌∷◌, ◌++◌, ◌≡◌, refl, ◌∙◌, ap, arith}
use mtp.Link.Types.{Event, OutOfServiceReason}
use mtp.Link.Config.{Mtp2Config}
use mtp.Link.Engine.{Mtp2Link, new, poll_event, emit, stop_all_timers}
use mtp.Link.Manage.{begin, start, stop, outage_at, recovered_at, submit_msu}
use mtp.Link.Manage
use mtp.Link.Outbound.{choose, in_service_su, transmit_frame, guard_t7, finish, poll_transmit}
use mtp.Link.Invariant.{Inv}
use mtp.Link.Invariant.Engine.{new-Inv}
use mtp.Link.Run.{Call, step, step-Inv, run, unless_refused}
use mtp.Link.Reports.{View, down, hear_all, view, polled, handed_out_by, handed_out}
use mtp.Link.Reports.Told.{Told, emitted, hear_all-append}
use mtp.Link.Reports.Units.{handle_su-Told, corrupted-Told, tick-Told}

poll_event-Told :
    (v : View) (l : Mtp2Link)
    → Told v l
    → Told (hear_all (polled (poll_event l).1) v) (poll_event l).0
unfolding poll_event hear_all
poll_event-Told v l h = ground arith

start-Told : (v : View) (l : Mtp2Link) → Inv l → Told v l → Told v (start l)
unfolding start begin stop_all_timers
start-Told v l inv h = ground arith

stop-Told : (v : View) (l : Mtp2Link) → Told v (stop l)
unfolding stop emit stop_all_timers
stop-Told v l = emitted v l (Event.out_of_service OutOfServiceReason.stopped)

outage-Told : (v : View) (l : Mtp2Link) → Told v l → Told v (Manage.local_processor_outage l)
unfolding Manage.local_processor_outage outage_at
outage-Told v l h = ground arith

recovered-Told : (v : View) (l : Mtp2Link) → Told v l → Told v (Manage.local_processor_recovered l)
unfolding Manage.local_processor_recovered recovered_at
recovered-Told v l h = ground arith

submit-Told :
    (v : View) (sio : ℕ) (sif : List ℕ) (l : Mtp2Link)
    → Told v l
    → Told v (unless_refused l (submit_msu sio sif l))
unfolding submit_msu
submit-Told v sio sif l h = ground arith

transmit-Told : (v : View) (l : Mtp2Link) → Told v l → Told v (poll_transmit l).0
unfolding poll_transmit finish choose in_service_su transmit_frame guard_t7
transmit-Told v l h = ground arith

step-Told :
    (v : View) (c : Call) (l : Mtp2Link)
    → Inv l
    → Told v l
    → Told (hear_all (handed_out_by c l) v) (step c l)
unfolding step handed_out_by hear_all
step-Told v Call.start l inv h = start-Told v l inv h
step-Told v Call.stop l inv h = stop-Told v l
step-Told v Call.poll_transmit l inv h = transmit-Told v l h
step-Told v Call.poll_event l inv h = poll_event-Told v l h
step-Told v Call.tick l inv h = tick-Told v l h
step-Told v Call.handle_corrupted_su l inv h = corrupted-Told v l h
step-Told v (Call.set_emergency b) l inv h = unfold Manage.set_emergency in h
step-Told v Call.local_processor_outage l inv h = outage-Told v l h
step-Told v Call.local_processor_recovered l inv h = recovered-Told v l h
step-Told v Call.local_busy l inv h = unfold Manage.local_busy in h
step-Told v Call.local_busy_ended l inv h = unfold Manage.local_busy_ended in h
step-Told v (Call.submit_msu sio sif) l inv h = submit-Told v sio sif l h
step-Told v (Call.handle_su su) l inv h = handle_su-Told v su l inv h

run_lem :
    (v : View) (calls : List Call) (l : Mtp2Link)
    → Inv l
    → Told v l
    → Told (hear_all (handed_out calls l) v) (run calls l)
unfolding run handed_out hear_all
run_lem v [] l inv h = h
run_lem v (c ∷ cs) l inv h =
    ap (λ w. hear_all (run cs (step c l)).events w)
      (hear_all-append (handed_out_by c l) (handed_out cs (step c l)) v)
    ∙ run_lem (hear_all (handed_out_by c l) v) cs (step c l) (step-Inv c l inv)
        (step-Told v c l inv h)

-- After any sequence of calls on a new link, the events that the calls handed out, followed by
-- those that still wait, tell MTP3 whether the link carries traffic, and while it does, whether the
-- peer is congested and whether its processor is out.
pub handed_out-view :
    (config : Mtp2Config) (calls : List Call)
    → hear_all (handed_out calls (new config) ++ (run calls (new config)).events) down
      ≡ view (run calls (new config))
handed_out-view config calls =
    hear_all-append (handed_out calls (new config)) _ down
    ∙ run_lem down calls (new config) (new-Inv config) (unfold new hear_all in refl)
