-- ===== src/Link/Run.antt =====
-- src/link.rs: a link under any sequence of calls of its public methods.
use mtp.Base.{ℕ, Bool, List, [], ◌∷◌, ◌++◌, refl, ◌≡◌}
use mtp.Error.{Result, ok, err}
use mtp.SignalUnit.Unit.{SignalUnit}
use mtp.Link.Config.{Mtp2Config}
use mtp.Link.Engine.{Mtp2Link, new}
use mtp.Link.Engine
use mtp.Link.Manage
use mtp.Link.Outbound
use mtp.Link.Inbound
use mtp.Link.Time
use mtp.Link.Invariant.{Inv}
use mtp.Link.Invariant.Engine.{new-Inv}
use mtp.Link.Invariant.Calls
use mtp.Link.Invariant.Time.{tick-Inv}

-- The public methods that change a link.
pub data Call : Type 0 where
  start stop poll_transmit poll_event tick handle_corrupted_su : Call
  set_emergency : Bool → Call
  local_processor_outage local_processor_recovered local_busy local_busy_ended : Call
  submit_msu : ℕ → List ℕ → Call
  handle_su : SignalUnit → Call

-- A refused MSU leaves the link as it was.
abbrev pub unless_refused : Mtp2Link → Result Mtp2Link → Mtp2Link
unless_refused l (ok l') = l'
unless_refused l (err _) = l

unfoldable pub step : Call → Mtp2Link → Mtp2Link
step Call.start l = Manage.start l
step Call.stop l = Manage.stop l
step Call.poll_transmit l = (Outbound.poll_transmit l).0
step Call.poll_event l = (Engine.poll_event l).0
step Call.tick l = Time.tick l
step Call.handle_corrupted_su l = Inbound.handle_corrupted_su l
step (Call.set_emergency b) l = Manage.set_emergency b l
step Call.local_processor_outage l = Manage.local_processor_outage l
step Call.local_processor_recovered l = Manage.local_processor_recovered l
step Call.local_busy l = Manage.local_busy l
step Call.local_busy_ended l = Manage.local_busy_ended l
step (Call.submit_msu sio sif) l = unless_refused l (Manage.submit_msu sio sif l)
step (Call.handle_su su) l = Inbound.handle_su su l

unfoldable pub run : List Call → Mtp2Link → Mtp2Link
run [] l = l
run (c ∷ cs) l = run cs (step c l)

pub run-append : (xs ys : List Call) (l : Mtp2Link) → run (xs ++ ys) l ≡ run ys (run xs l)
unfolding run
run-append [] ys l = refl
run-append (x ∷ xs) ys l = run-append xs ys (step x l)

-- What is not refused is a submitted MSU.
unless_refused-Inv :
    (sio : ℕ) (sif : List ℕ) (l : Mtp2Link) (r : Result Mtp2Link)
    → Manage.submit_msu sio sif l ≡ r
    → Inv l
    → Inv (unless_refused l r)
unless_refused-Inv sio sif l (ok l') e v = Calls.submit_msu-Inv sio sif l e v
unless_refused-Inv sio sif l (err _) e v = v

pub step-Inv : (c : Call) (l : Mtp2Link) → Inv l → Inv (step c l)
unfolding step
step-Inv Call.start l v = Calls.start-Inv l v
step-Inv Call.stop l v = Calls.stop-Inv l v
step-Inv Call.poll_transmit l v = Calls.poll_transmit-Inv l v
step-Inv Call.poll_event l v = Calls.poll_event-Inv l v
step-Inv Call.tick l v = tick-Inv l v
step-Inv Call.handle_corrupted_su l v = Calls.handle_corrupted_su-Inv l v
step-Inv (Call.set_emergency b) l v = Calls.set_emergency-Inv b l v
step-Inv Call.local_processor_outage l v = Calls.local_processor_outage-Inv l v
step-Inv Call.local_processor_recovered l v = Calls.local_processor_recovered-Inv l v
step-Inv Call.local_busy l v = Calls.local_busy-Inv l v
step-Inv Call.local_busy_ended l v = Calls.local_busy_ended-Inv l v
step-Inv (Call.submit_msu sio sif) l v = unless_refused-Inv sio sif l _ refl v
step-Inv (Call.handle_su su) l v = Calls.handle_su-Inv su l v

run_lem : (calls : List Call) (l : Mtp2Link) → Inv l → Inv (run calls l)
unfolding run
run_lem [] l v = v
run_lem (c ∷ cs) l v = run_lem cs (step c l) (step-Inv c l v)

-- Whatever sequence of its public methods is called on a new link, with whatever configuration and
-- signal units, T1 runs exactly in Aligned Ready, T2 in Not Aligned, T3 in Aligned, T4 in Proving
-- and T6 while a link that carries traffic has a busy peer; T7 runs only with traffic; the peer's
-- outage and congestion are not remembered while aligning; a link out of Out Of Service is active;
-- the SUERM of a link with traffic has not failed; and the states that say so agree with the
-- local processor outage.
pub run-Inv : (config : Mtp2Config) (calls : List Call) → Inv (run calls (new config))
run-Inv config calls = run_lem calls (new config) (new-Inv config)
