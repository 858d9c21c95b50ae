-- ===== src/Link/TimerTests.antt =====
-- src/link.rs: links with running timers.
use mtp.Base.{refl, not, ◌<◌, ◌≡◌, arith, true, false, some, List, [], ◌∷◌, ◌++◌}
use mtp.SignalUnit.Header.{SuHeader}
use mtp.SignalUnit.Status.{StatusIndication}
use mtp.SignalUnit.Unit.{SignalUnit, fisu, lssu}
use mtp.Retransmission.Tx.{TxControl, unacked_len, on_ack, acknowledge, free, nack}
use mtp.Retransmission.Tx
use mtp.Retransmission.Seq.{seq_forward}
use mtp.Monitor.Aerm
use mtp.Monitor.Suerm
use mtp.Monitor.Bucket.{record_all}
use mtp.Link.Lssu.{carries_traffic}
use mtp.Link.Service.{Arrival, received_all, flags, run-failed}
use mtp.Link.Attempts.{attempts, attempts_exhausted}
use mtp.Link.Types.{AlignmentFailure, Mtp2State, Event, OutOfServiceReason}
use mtp.Link.Config.{default}
use mtp.Link.Engine.{Mtp2Link, new}
use mtp.Link.Run.{Call, step, run}
use mtp.Link.Invariant.{Inv}
use mtp.Link.Silence.{Waiting, silence, silence_fails}
use mtp.Link.Alignment.{opening, alignment_serves}
use mtp.Link.Tests.{quick}
use mtp.Link.Proving.{Occurrence, calls, IsProving, proving_ends}
use mtp.Link.Emergency.{exchanges, IsUrgent, exchanges_livelock}
use mtp.Link.Delay.{each_tick, IsWaiting, busy_peer_expires_t7}
use mtp.Link.Patience.{IsIgnored, ignored_forever}

abbrev idle : SuHeader
idle = record { bsn = 127; bib = true; fsn = 127; fib = true }

abbrev sib : SignalUnit
sib = lssu idle StatusIndication.busy false

-- A link with two ticks of proving to go.
abbrev prover : Mtp2Link
prover = record (new default) { state = Mtp2State.proving; active = true; t4 = some 2 }

abbrev occurrences : List Occurrence
occurrences =
    Occurrence.erred ∷ Occurrence.ticked ∷ Occurrence.sent ∷ Occurrence.heard idle true ∷ []

prover-IsProving : IsProving 2 1 false prover
unfolding new Aerm.new
prover-IsProving = ground arith

proving_ends_example :
    ((run (calls occurrences) prover).state ≡ Mtp2State.proving)
    × ((step Call.tick (run (calls occurrences) prover)).state ≡ Mtp2State.aligned_ready)
proving_ends_example = proving_ends occurrences false prover prover-IsProving

abbrev urgent : Mtp2Link
urgent = record prover { emergency = true; t4 = some 6 }

urgent-IsUrgent : IsUrgent urgent
unfolding new
urgent-IsUrgent = ground arith

exchanges_livelock_example :
    ((exchanges 100 (urgent, urgent)).0.state ≡ Mtp2State.proving)
    × ((exchanges 100 (urgent, urgent)).1.state ≡ Mtp2State.proving)
exchanges_livelock_example = exchanges_livelock 100 urgent urgent urgent-IsUrgent urgent-IsUrgent

-- One MSU is outstanding.
abbrev sender : TxControl
sender = record (Tx.new default.method) {
  last_fsn = 0;
  unacked = record { fsn = 0; sio = 5; sif = 1 ∷ 2 ∷ [] } ∷ [];
}

abbrev waiter : Mtp2Link
waiter = record (new default) {
  state = Mtp2State.in_service;
  active = true;
  remote_busy = true;
  tx = sender;
  t6 = some 60;
  t7 = some 20;
}

waiter-IsWaiting : IsWaiting 20 waiter
unfolding new Suerm.new
waiter-IsWaiting = ground arith

busy_peer_expires_t7_example :
    ((run (each_tick sib 20) waiter).state ≡ Mtp2State.out_of_service)
    × ((run (each_tick sib 20) waiter).events
        ≡ waiter.events ++ (Event.out_of_service OutOfServiceReason.t7_expired ∷ []))
busy_peer_expires_t7_example = busy_peer_expires_t7 idle false 19 waiter waiter-IsWaiting

waiter-IsIgnored : IsIgnored idle sender waiter
unfolding new Suerm.new on_ack acknowledge free nack seq_forward Tx.new
waiter-IsIgnored = ground arith

ignored_forever_example :
    ((run (each_tick (fisu idle) 500) waiter).state ≡ Mtp2State.in_service)
    × ((run (each_tick (fisu idle) 500) waiter).tx ≡ sender)
    × (0 < unacked_len (run (each_tick (fisu idle) 500) waiter).tx)
ignored_forever_example = ignored_forever idle sender 500 waiter waiter-IsIgnored

-- Two corrupted units, a FISU and an MSU under another header.
abbrev noise : List Arrival
noise =
    Arrival.corrupted
    ∷ Arrival.idle idle
    ∷ Arrival.message (record idle { fsn = 0 }) 131 (1 ∷ 2 ∷ [])
    ∷ Arrival.corrupted
    ∷ []

run-failed_example :
    carries_traffic (run (received_all noise) waiter).state
    ≡ not (record_all (flags noise) waiter.suerm).failed
run-failed_example = run-failed noise waiter refl (unfold new Suerm.new in refl)

-- Three attempts have been aborted.
abbrev tired : Mtp2Link
tired = record (new default) {
  state = Mtp2State.aligned;
  active = true;
  proving_attempt = 3;
  t3 = some 20;
}

attempts_exhausted_example :
    ((run (attempts idle 4 1) tired).state ≡ Mtp2State.aligned)
    × ((run (attempts idle 4 2) tired).state ≡ Mtp2State.out_of_service)
attempts_exhausted_example =
    attempts_exhausted idle 3 1 tired refl (unfold new in refl) (unfold new in refl) (omega arith)
      (unfold new in refl) (unfold new in omega arith)

alignment_serves_example :
    (run
      (opening idle
        ++ calls (Occurrence.erred ∷ Occurrence.ticked ∷ [])
        ++ (Call.tick ∷ Call.handle_su (fisu idle) ∷ []))
      (new quick)).state
    ≡ Mtp2State.in_service
alignment_serves_example =
    alignment_serves quick idle (Occurrence.erred ∷ Occurrence.ticked ∷ []) refl refl (omega arith)
      (omega arith)

-- A link that waits in Aligned.
abbrev listener : Mtp2Link
listener = record (new default) { state = Mtp2State.aligned; active = true; t3 = some 20 }

listener-Inv : Inv listener
unfolding new Suerm.new
listener-Inv = ground arith

silence_fails_example :
    ((run (silence 19) listener).state ≡ Mtp2State.aligned)
    × ((run (silence 19) listener).events ≡ listener.events)
    × ((run (silence 20) listener).state ≡ Mtp2State.out_of_service)
    × ((run (silence 20) listener).events
        ≡ listener.events ++ (Event.alignment_failed AlignmentFailure.t3_expired ∷ []))
silence_fails_example = silence_fails Waiting.aligned 19 listener listener-Inv refl refl
