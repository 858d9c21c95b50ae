-- ===== src/Link/Diagram/Moves.antt =====
-- src/link.rs: each call is a move of the state diagram.
use mtp.Base.{◌≡◌, refl, arith, Bool, true, false, ◌⊎◌, inl, inr, ℕ, List, sym, some, none}
use mtp.SignalUnit.Status.{StatusIndication}
use mtp.SignalUnit.Header.{SuHeader}
use mtp.SignalUnit.Unit.{SignalUnit, fisu, lssu, msu}
use mtp.Link.Types.{Mtp2State}
use mtp.Link.Engine.{Mtp2Link, emit, stop_all_timers, poll_event}
use mtp.Link.Manage.{begin, outage_at, recovered_at, submit_msu}
use mtp.Link.Manage
use mtp.Link.Inbound.{dispatch, monitor, handle_su, handle_corrupted_su}
use mtp.Link.Run.{Call, step, unless_refused}
use mtp.Link.Diagram.{Move, is_ready, may_fail}
use mtp.Link.Diagram.States.{
  tick-state, poll_transmit-state, corrupted-state, fisu_or_msu-state, lssu-state, monitor-state,
  handle_su-state, Ticked, Served, Heard,
}

-- A move between two states that are known by equations.
moved : {c : Call} {a b s s' : Mtp2State} → (s ≡ a) × (s' ≡ b) → Move c a b → Move c s s'
moved (e, e') m = rw e (rw e' m)

failed :
    {c : Call} {s s' : Mtp2State} → may_fail c ≡ true → s' ≡ Mtp2State.out_of_service → Move c s s'
failed f e = rw e (Move.fail f)

kept : {c : Call} {s s' : Mtp2State} → s' ≡ s → Move c s s'
kept e = rw e Move.stay

of_served :
    {su : SignalUnit} {s s' : Mtp2State}
    → is_ready su ≡ true
    → Served s s'
    → Move (Call.handle_su su) s s'
of_served r (inl e) = kept e
of_served r (inr e) = moved e (Move.serve r)

of_heard :
    {h : SuHeader} {i : StatusIndication} {x : Bool} {s s' : Mtp2State}
    → Heard i s s'
    → Move (Call.handle_su (lssu h i x)) s s'
of_heard (inl e) = kept e
of_heard (inr (inl e)) = failed refl e
of_heard (inr (inr (inl (e, e', a)))) = moved (e, e') (Move.align a)
of_heard (inr (inr (inr (inl (e, e', a))))) = moved (e, e') (Move.prove a)
of_heard (inr (inr (inr (inr (inl (e, e', a)))))) = moved (e, e') (rw a Move.fall_back)
of_heard (inr (inr (inr (inr (inr (e, e', a)))))) = moved (e, e') (Move.serve (rw a refl))

dispatch-Move :
    (su : SignalUnit) (l : Mtp2Link) → Move (Call.handle_su su) l.state (dispatch su l).state
unfolding dispatch
dispatch-Move (fisu h) l = of_served refl (fisu_or_msu-state h none l)
dispatch-Move (lssu h i x) l = of_heard (lssu-state i l)
dispatch-Move (msu h sio sif) l = of_served refl (fisu_or_msu-state h (some (sio, sif)) l)

handle_su-Move :
    (su : SignalUnit) (l : Mtp2Link) → Move (Call.handle_su su) l.state (handle_su su l).state
handle_su-Move su l = elim (handle_su-state su l) [
  | inl e ↦ failed refl e
  | inr e ↦ moved (sym (monitor-state false l), e) (dispatch-Move su (monitor false l).0)
]

of_ticked : {s s' : Mtp2State} → Ticked s s' → Move Call.tick s s'
of_ticked (inl e) = kept e
of_ticked (inr (inl e)) = failed refl e
of_ticked (inr (inr (inl e))) = moved e Move.succeed
of_ticked (inr (inr (inr e))) = moved e Move.succeed_not_ready

corrupted-Move :
    (l : Mtp2Link) → Move Call.handle_corrupted_su l.state (handle_corrupted_su l).state
corrupted-Move l = elim (corrupted-state l) [
  | inl e ↦ kept e
  | inr (inl e) ↦ failed refl e
  | inr (inr e) ↦ moved e Move.abort
]

start-Move : (l : Mtp2Link) → Move Call.start l.state (Manage.start l).state
start-Move l = elim start_cases [ inl e ↦ kept e | inr e ↦ moved e Move.power_on ]
  where
    start_cases :
        ((Manage.start l).state ≡ l.state)
        ⊎ ((l.state ≡ Mtp2State.out_of_service) × ((Manage.start l).state ≡ Mtp2State.not_aligned))
    start_cases = unfold Manage.start begin stop_all_timers in ground arith

outage-Move :
    (s : Mtp2State) (l : Mtp2Link)
    → l.state ≡ s
    → Move Call.local_processor_outage s (outage_at s l).state
unfolding outage_at
outage-Move Mtp2State.in_service l e = Move.suspend
outage-Move Mtp2State.aligned_ready l e = Move.hold
outage-Move Mtp2State.out_of_service l e = kept e
outage-Move Mtp2State.not_aligned l e = kept e
outage-Move Mtp2State.aligned l e = kept e
outage-Move Mtp2State.proving l e = kept e
outage-Move Mtp2State.aligned_not_ready l e = kept e
outage-Move Mtp2State.processor_outage l e = kept e

recovered-Move :
    (s : Mtp2State) (l : Mtp2Link)
    → l.state ≡ s
    → Move Call.local_processor_recovered s (recovered_at s l).state
unfolding recovered_at
recovered-Move Mtp2State.processor_outage l e = Move.restore
recovered-Move Mtp2State.aligned_not_ready l e = Move.resume
recovered-Move Mtp2State.out_of_service l e = kept e
recovered-Move Mtp2State.not_aligned l e = kept e
recovered-Move Mtp2State.aligned l e = kept e
recovered-Move Mtp2State.proving l e = kept e
recovered-Move Mtp2State.aligned_ready l e = kept e
recovered-Move Mtp2State.in_service l e = kept e

submit-state :
    (sio : ℕ) (sif : List ℕ) (l : Mtp2Link)
    → (unless_refused l (submit_msu sio sif l)).state ≡ l.state
unfolding submit_msu
submit-state sio sif l = ground arith

poll_event-state : (l : Mtp2Link) → (poll_event l).0.state ≡ l.state
unfolding poll_event
poll_event-state l = ground arith

-- Each call leaves the state of a link as it is or makes a move of the diagram: `start` leads from
-- Out Of Service to Not Aligned; a received SIO, SIN or SIE from there to Aligned; SIN or SIE from
-- Aligned to Proving; a tick from Proving to Aligned Ready or to Aligned Not Ready; a corrupted unit
-- or SIO from Proving back to Aligned; a FISU, an MSU or SIPO from Aligned Ready to In Service; a local
-- processor outage from Aligned Ready to Aligned Not Ready and from In Service to Processor Outage,
-- and its end back from these two; and `stop`, a tick, a received or a corrupted unit to Out Of
-- Service.
pub step-Move : (call : Call) (l : Mtp2Link) → Move call l.state (step call l).state
unfolding step
step-Move Call.start l = start-Move l
step-Move Call.stop l = failed refl (unfold Manage.stop emit stop_all_timers in refl)
step-Move Call.poll_transmit l = kept (poll_transmit-state l)
step-Move Call.poll_event l = kept (poll_event-state l)
step-Move Call.tick l = of_ticked (tick-state l)
step-Move Call.handle_corrupted_su l = corrupted-Move l
step-Move (Call.set_emergency b) l = kept (unfold Manage.set_emergency in refl)
step-Move Call.local_processor_outage l =
    unfold Manage.local_processor_outage in
    outage-Move l.state (record l { local_processor_outage = true }) refl
step-Move Call.local_processor_recovered l =
    unfold Manage.local_processor_recovered in
    recovered-Move l.state (record l { local_processor_outage = false }) refl
step-Move Call.local_busy l = kept (unfold Manage.local_busy in refl)
step-Move Call.local_busy_ended l = kept (unfold Manage.local_busy_ended in refl)
step-Move (Call.submit_msu sio sif) l = kept (submit-state sio sif l)
step-Move (Call.handle_su su) l = handle_su-Move su l
