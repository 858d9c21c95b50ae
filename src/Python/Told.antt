-- ===== src/Python/Told.antt =====
-- src/python.rs: what a Python event tells.
use Prim.Native.String.{String}
use text.Mathlib.Text.{◌==◌}
use mtp.Base.{ℕ, ◌≡◌, refl, ap, List, Option, none, some, if◌then◌else◌}
use mtp.Link.Types.{Event, OutOfServiceReason, AlignmentFailure}
use mtp.Python.Events.{PyEvent, oos_reason, align_failure, event_to_py}

-- The reasons by their texts.
abbrev pub reason_of : String → Option OutOfServiceReason
reason_of s =
    if s == "stopped"
    then some OutOfServiceReason.stopped
    else if s == "received_sios"
    then some OutOfServiceReason.received_sios
    else if s == "alignment_lost"
    then some OutOfServiceReason.alignment_lost
    else if s == "suerm_failure"
    then some OutOfServiceReason.suerm_failure
    else if s == "t6_expired"
    then some OutOfServiceReason.t6_expired
    else if s == "t7_expired"
    then some OutOfServiceReason.t7_expired
    else none

abbrev pub failure_of : String → Option AlignmentFailure
failure_of s =
    if s == "aerm_tripped"
    then some AlignmentFailure.aerm_tripped
    else if s == "received_sios"
    then some AlignmentFailure.received_sios
    else if s == "t2_expired"
    then some AlignmentFailure.t2_expired
    else if s == "t3_expired"
    then some AlignmentFailure.t3_expired
    else if s == "t1_expired"
    then some AlignmentFailure.t1_expired
    else none

abbrev pub with_reason {ℓ} : {A : Type ℓ} → (A → Event) → Option A → Option Event
with_reason f none = none
with_reason f (some a) = some (f a)

abbrev pub detailed {ℓ} :
    {A : Type ℓ} → (A → Event) → (String → Option A) → Option String → Option Event
detailed f g none = none
detailed f g (some s) = with_reason f (g s)

abbrev pub payload : Option ℕ → Option (List ℕ) → Option Event
payload (some sio) (some sif) = some (Event.msu sio sif)
payload _ _ = none

-- A reader that knows only the four fields.
abbrev pub read : PyEvent → Option Event
read e =
    if e.kind == "in_service"
    then some Event.in_service
    else if e.kind == "out_of_service"
    then detailed Event.out_of_service reason_of e.detail
    else if e.kind == "alignment_failed"
    then detailed Event.alignment_failed failure_of e.detail
    else if e.kind == "msu"
    then payload e.sio e.sif
    else if e.kind == "remote_processor_outage"
    then some Event.remote_processor_outage
    else if e.kind == "remote_processor_recovered"
    then some Event.remote_processor_recovered
    else if e.kind == "remote_busy"
    then some Event.remote_busy
    else if e.kind == "remote_busy_ended"
    then some Event.remote_busy_ended
    else if e.kind == "retransmission_requested"
    then some Event.retransmission_requested
    else none

reason_of-oos_reason : (r : OutOfServiceReason) → reason_of (oos_reason r) ≡ some r
unfolding oos_reason
reason_of-oos_reason OutOfServiceReason.stopped = refl
reason_of-oos_reason OutOfServiceReason.received_sios = refl
reason_of-oos_reason OutOfServiceReason.alignment_lost = refl
reason_of-oos_reason OutOfServiceReason.suerm_failure = refl
reason_of-oos_reason OutOfServiceReason.t6_expired = refl
reason_of-oos_reason OutOfServiceReason.t7_expired = refl

failure_of-align_failure : (f : AlignmentFailure) → failure_of (align_failure f) ≡ some f
unfolding align_failure
failure_of-align_failure AlignmentFailure.aerm_tripped = refl
failure_of-align_failure AlignmentFailure.received_sios = refl
failure_of-align_failure AlignmentFailure.t2_expired = refl
failure_of-align_failure AlignmentFailure.t3_expired = refl
failure_of-align_failure AlignmentFailure.t1_expired = refl

-- The Python event tells all that the event of the core does: a reader of its four fields gets every
-- event back, with its reason and its MSU, so no two events look the same.
pub read-event_to_py : (e : Event) → read (event_to_py e) ≡ some e
unfolding event_to_py
read-event_to_py Event.in_service = refl
read-event_to_py (Event.out_of_service r) =
    ap (with_reason Event.out_of_service) (reason_of-oos_reason r)
read-event_to_py (Event.alignment_failed f) =
    ap (with_reason Event.alignment_failed) (failure_of-align_failure f)
read-event_to_py (Event.msu sio sif) = refl
read-event_to_py Event.remote_processor_outage = refl
read-event_to_py Event.remote_processor_recovered = refl
read-event_to_py Event.remote_busy = refl
read-event_to_py Event.remote_busy_ended = refl
read-event_to_py Event.retransmission_requested = refl
