-- ===== src/Python/Session.antt =====
-- src/python.rs: a `Link` object under any sequence of method calls.
use mtp.Base.{ℕ, ◌≡◌, refl, sym, ◌∙◌, ap, Bool, List, [], ◌∷◌, ◌++◌}
use mtp.Error.{Result}
use mtp.Error
use mtp.SignalUnit.Unit.{SignalUnit}
use mtp.SignalUnit.Codec
use mtp.Link.Engine.{Mtp2Link}
use mtp.Link.Manage
use mtp.Link.Inbound
use mtp.Link.Run.{Call, step, run, run-append, unless_refused}
use mtp.Python.Result.{PyResult, ok, raised, ◌>>=◌, mtp2_err}
use mtp.Python.Methods
use mtp.Python.Link

-- A method call from Python.
pub data PyCall : Type 0 where
  start stop handle_corrupted_su tick poll_transmit poll_event : PyCall
  local_processor_outage local_processor_recovered local_busy local_busy_ended : PyCall
  set_emergency : Bool → PyCall
  submit_msu : ℕ → List ℕ → PyCall
  handle_su : List ℕ → PyCall

-- The object after a call, or the exception that it raises.
unfoldable pub call : PyCall → Mtp2Link → PyResult Mtp2Link
call PyCall.start l = ok (Methods.start l)
call PyCall.stop l = ok (Methods.stop l)
call PyCall.handle_corrupted_su l = ok (Methods.handle_corrupted_su l)
call PyCall.tick l = ok (Methods.tick l)
call PyCall.poll_transmit l = ok (Link.poll_transmit l).0
call PyCall.poll_event l = ok (Link.poll_event l).0
call PyCall.local_processor_outage l = ok (Methods.local_processor_outage l)
call PyCall.local_processor_recovered l = ok (Methods.local_processor_recovered l)
call PyCall.local_busy l = ok (Methods.local_busy l)
call PyCall.local_busy_ended l = ok (Methods.local_busy_ended l)
call (PyCall.set_emergency b) l = ok (Methods.set_emergency b l)
call (PyCall.submit_msu sio sif) l = Link.submit_msu sio sif l
call (PyCall.handle_su bytes) l = Link.handle_su bytes l

-- A call that raises leaves the object as it was.
abbrev pub unless_raised : Mtp2Link → PyResult Mtp2Link → Mtp2Link
unless_raised l (ok l') = l'
unless_raised l (raised _) = l

unfoldable pub session : List PyCall → Mtp2Link → Mtp2Link
session [] l = l
session (c ∷ cs) l = session cs (unless_raised l (call c l))

-- The calls of the core that a call from Python makes.
abbrev pub decoded : Result SignalUnit → List Call
decoded (Error.ok su) = Call.handle_su su ∷ []
decoded (Error.err _) = []

unfoldable pub core_calls : PyCall → List Call
core_calls PyCall.start = Call.start ∷ []
core_calls PyCall.stop = Call.stop ∷ []
core_calls PyCall.handle_corrupted_su = Call.handle_corrupted_su ∷ []
core_calls PyCall.tick = Call.tick ∷ []
core_calls PyCall.poll_transmit = Call.poll_transmit ∷ []
core_calls PyCall.poll_event = Call.poll_event ∷ []
core_calls PyCall.local_processor_outage = Call.local_processor_outage ∷ []
core_calls PyCall.local_processor_recovered = Call.local_processor_recovered ∷ []
core_calls PyCall.local_busy = Call.local_busy ∷ []
core_calls PyCall.local_busy_ended = Call.local_busy_ended ∷ []
core_calls (PyCall.set_emergency b) = Call.set_emergency b ∷ []
core_calls (PyCall.submit_msu sio sif) = Call.submit_msu sio sif ∷ []
core_calls (PyCall.handle_su bytes) = decoded (Codec.decode bytes)

unfoldable pub all_core_calls : List PyCall → List Call
all_core_calls [] = []
all_core_calls (c ∷ cs) = core_calls c ++ all_core_calls cs

refused_lem :
    (l : Mtp2Link) (r : Result Mtp2Link) → unless_raised l (mtp2_err r) ≡ unless_refused l r
unfolding mtp2_err
refused_lem l (Error.ok l') = refl
refused_lem l (Error.err e) = refl

decoded_lem :
    (l : Mtp2Link) (r : Result SignalUnit)
    → unless_raised l (mtp2_err r >>= λ su. ok (Inbound.handle_su su l)) ≡ run (decoded r) l
unfolding mtp2_err run step
decoded_lem l (Error.ok su) = refl
decoded_lem l (Error.err e) = refl

call_lem : (c : PyCall) (l : Mtp2Link) → unless_raised l (call c l) ≡ run (core_calls c) l
unfolding call core_calls run step
call_lem PyCall.start l = unfold Methods.start in refl
call_lem PyCall.stop l = unfold Methods.stop in refl
call_lem PyCall.handle_corrupted_su l = unfold Methods.handle_corrupted_su in refl
call_lem PyCall.tick l = unfold Methods.tick in refl
call_lem PyCall.poll_transmit l = unfold Link.poll_transmit in refl
call_lem PyCall.poll_event l = unfold Link.poll_event in refl
call_lem PyCall.local_processor_outage l = unfold Methods.local_processor_outage in refl
call_lem PyCall.local_processor_recovered l = unfold Methods.local_processor_recovered in refl
call_lem PyCall.local_busy l = unfold Methods.local_busy in refl
call_lem PyCall.local_busy_ended l = unfold Methods.local_busy_ended in refl
call_lem (PyCall.set_emergency b) l = unfold Methods.set_emergency in refl
call_lem (PyCall.submit_msu sio sif) l =
    unfold Link.submit_msu in refused_lem l (Manage.submit_msu sio sif l)
call_lem (PyCall.handle_su bytes) l = unfold Link.handle_su in decoded_lem l (Codec.decode bytes)

-- A `Link` object under any sequence of method calls, those that raise included, holds what the core
-- makes of the same calls, where a received unit is the one that its octets decode to, and octets
-- that do not decode make no call at all.
pub session-run : (cs : List PyCall) (l : Mtp2Link) → session cs l ≡ run (all_core_calls cs) l
unfolding session all_core_calls
session-run [] l = unfold run in refl
session-run (c ∷ cs) l =
    ap (session cs) (call_lem c l)
    ∙ session-run cs (run (core_calls c) l)
    ∙ sym (run-append (core_calls c) (all_core_calls cs) l)
