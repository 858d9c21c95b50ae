-- ===== src/Duplex.antt =====
-- src/link.rs: two links that send signal units to each other. What a link sends is under way until
-- it is received or lost: in order, in each direction. The span between the links is the
-- environment's.
pub mod Quiet
pub mod Sent
pub mod Taken
pub mod Local
pub mod Spans
pub mod Forward
pub mod Backward
pub mod Order
pub mod Steady
pub mod Pairing
pub mod Live
pub mod Rise
pub mod Service
pub mod Together
pub mod Ascent
pub mod Enter
pub mod Start
pub mod Up
pub mod Belated
pub mod Busy
pub mod Held
pub mod Pause
pub mod Onset
pub mod Relief
pub mod Restored
pub mod Congestion
pub mod Octets
pub mod Carried
pub mod Stack
pub mod Play
mod Tests
use mtp.Base.{Bool, ℕ, ◌≤◌, ◌≡◌, List, [], ◌∷◌, ◌++◌, some}
use mtp.Error.{ok}
use mtp.SignalUnit.Unit.{SignalUnit}
use mtp.Retransmission.Tx.{unacked_len}
use mtp.Link.Types.{Event}
use mtp.Link.Engine.{Mtp2Link, poll_event}
use mtp.Link.Manage.{submit_msu, start}
use mtp.Link.Outbound.{poll_transmit}
use mtp.Link.Inbound.{handle_su}
use mtp.Link.Run.{Call, step}

-- A link, the units that are under way to it, the MSUs that its MTP3 has submitted, and the events
-- that it has polled.
pub record End : Type 0 where
  pub link : Mtp2Link
  pub inbox : List SignalUnit
  pub submitted : List (ℕ × List ℕ)
  pub told : List Event

-- The end of a link that has just been started.
unfoldable pub opened : Mtp2Link → End
opened l = record { link = start l; inbox = []; submitted = []; told = [] }

-- The calls that concern one end alone. A link is not started again.
pub data IsLocal : Call → Type 0 where
  stop : IsLocal Call.stop
  tick : IsLocal Call.tick
  handle_corrupted_su : IsLocal Call.handle_corrupted_su
  set_emergency : (b : Bool) → IsLocal (Call.set_emergency b)
  local_processor_outage : IsLocal Call.local_processor_outage
  local_processor_recovered : IsLocal Call.local_processor_recovered
  local_busy : IsLocal Call.local_busy
  local_busy_ended : IsLocal Call.local_busy_ended

-- A step of one end, or of the span on the way to it. No more than 127 MSUs may be outstanding, which
-- a 7-bit number needs.
pub data Step (near far : End) : End → End → Type 0 where
  calls : (c : Call) → IsLocal c → Step near far (record near { link = step c near.link }) far
  submits :
      (sio : ℕ) (sif : List ℕ) (l : Mtp2Link)
      → submit_msu sio sif near.link ≡ ok l
      → Step near far
          (record near { link = l; submitted = near.submitted ++ ((sio, sif) ∷ []) })
          far
  polls_event :
      (l : Mtp2Link) (e : Event)
      → poll_event near.link ≡ (l, some e)
      → Step near far (record near { link = l; told = near.told ++ (e ∷ []) }) far
  transmits :
      (l : Mtp2Link) (su : SignalUnit)
      → poll_transmit near.link ≡ (l, some su)
      → unacked_len l.tx ≤ 127
      → Step near far (record near { link = l }) (record far { inbox = far.inbox ++ (su ∷ []) })
  receives :
      (su : SignalUnit) (rest : List SignalUnit)
      → near.inbox ≡ su ∷ rest
      → Step near far (record near { link = handle_su su near.link; inbox = rest }) far
  loses :
      (xs ys : List SignalUnit) (su : SignalUnit)
      → near.inbox ≡ xs ++ (su ∷ ys)
      → Step near far (record near { inbox = xs ++ ys }) far

-- The steps of two ends.
pub data Reach (a b : End) : End → End → Type 0 where
  here : Reach a b a b
  left : {a' b' a'' b'' : End} → Reach a b a' b' → Step a' b' a'' b'' → Reach a b a'' b''
  right : {a' b' a'' b'' : End} → Reach a b a' b' → Step b' a' b'' a'' → Reach a b a'' b''
