-- ===== src/Duplex/Octets.antt =====
-- src/link.rs and src/signal_unit.rs: two links joined by octets, as a driver joins them: what a link
-- sends is encoded, and what comes in is decoded.
use mtp.Base.{ℕ, ◌≤◌, ◌≡◌, List, [], ◌∷◌, ◌++◌, length, some}
use mtp.Error.{Mtp2Error, ok, err}
use mtp.SignalUnit.Unit.{SignalUnit}
use mtp.SignalUnit.Codec.{encode, decode}
use mtp.Retransmission.Tx.{unacked_len}
use mtp.Link.Types.{Event}
use mtp.Link.Engine.{Mtp2Link, poll_event}
use mtp.Link.Manage.{submit_msu, start}
use mtp.Link.Outbound.{poll_transmit}
use mtp.Link.Inbound.{handle_su}
use mtp.Link.Run.{Call, step}
use mtp.Duplex.{IsLocal}

-- A link with its driver: the octets of each unit that is under way to it, the MSUs that its MTP3
-- has submitted, and the events that it has polled.
pub record Port : Type 0 where
  pub link : Mtp2Link
  pub inbox : List (List ℕ)
  pub submitted : List (ℕ × List ℕ)
  pub told : List Event

unfoldable pub connected : Mtp2Link → Port
connected l = record { link = start l; inbox = []; submitted = []; told = [] }

-- The steps of Duplex, over octets. An MSU has at least two octets of service information. A driver
-- drops what does not decode.
pub data Step (near far : Port) : Port → Port → Type 0 where
  calls : (c : Call) → IsLocal c → Step near far (record near { link = step c near.link }) far
  submits :
      (sio : ℕ) (sif : List ℕ) (l : Mtp2Link)
      → 2 ≤ length sif
      → submit_msu sio sif near.link ≡ ok l
      → Step near far
          (record near { link = l; submitted = near.submitted ++ ((sio, sif) ∷ []) })
          far
  polls_event :
      (l : Mtp2Link) (e : Event)
      → poll_event near.link ≡ (l, some e)
      → Step near far (record near { link = l; told = near.told ++ (e ∷ []) }) far
  transmits :
      (l : Mtp2Link) (su : SignalUnit) (bytes : List ℕ)
      → poll_transmit near.link ≡ (l, some su)
      → encode su ≡ ok bytes
      → unacked_len l.tx ≤ 127
      → Step near far (record near { link = l }) (record far { inbox = far.inbox ++ (bytes ∷ []) })
  receives :
      (bytes : List ℕ) (rest : List (List ℕ)) (su : SignalUnit)
      → near.inbox ≡ bytes ∷ rest
      → decode bytes ≡ ok su
      → Step near far (record near { link = handle_su su near.link; inbox = rest }) far
  drops :
      (bytes : List ℕ) (rest : List (List ℕ)) (e : Mtp2Error)
      → near.inbox ≡ bytes ∷ rest
      → decode bytes ≡ err e
      → Step near far (record near { inbox = rest }) far
  loses :
      (xs ys : List (List ℕ)) (bytes : List ℕ)
      → near.inbox ≡ xs ++ (bytes ∷ ys)
      → Step near far (record near { inbox = xs ++ ys }) far

pub data Reach (a b : Port) : Port → Port → Type 0 where
  here : Reach a b a b
  left : {a' b' a'' b'' : Port} → Reach a b a' b' → Step a' b' a'' b'' → Reach a b a'' b''
  right : {a' b' a'' b'' : Port} → Reach a b a' b' → Step b' a' b'' a'' → Reach a b a'' b''
