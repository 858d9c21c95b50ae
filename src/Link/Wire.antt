-- ===== src/Link/Wire.antt =====
-- src/link.rs: what a link puts on the wire.
pub mod Frames
pub mod Kept
pub mod Received
pub mod Sent
use mtp.Base.{ℕ, ◌≤◌, ◌<◌, List, length, All}
use mtp.SignalUnit.Header.{seq_modulus}
use mtp.SignalUnit.Unit.{SignalUnit, max_msu_body}
use mtp.SignalUnit.Valid.{IsValid}
use mtp.Retransmission.Tx.{BufferedMsu, TxBody, TxFrame, TxControl}
use mtp.Link.Engine.{Mtp2Link}
use mtp.Link.Run.{Call}

-- A service information field that an MSU can carry.
abbrev pub Fits : List ℕ → Type 0
Fits sif = (2 ≤ length sif) × (length sif < max_msu_body)

abbrev pub IsBuffered : BufferedMsu → Type 0
IsBuffered m = (m.fsn < seq_modulus) × Fits m.sif

abbrev pub IsPending : ℕ × List ℕ → Type 0
IsPending p = Fits p.1

-- A transmit side whose numbers have seven bits and whose MSUs fit.
pub record IsWireTx (t : TxControl) : Type 0 where
  pub last : t.last_fsn < seq_modulus
  pub pending : All IsPending t.pending
  pub unacked : All IsBuffered t.unacked

abbrev pub IsWireBody : TxBody → Type 0
IsWireBody TxBody.fisu = Unit
IsWireBody (TxBody.msu sio sif) = Fits sif

abbrev pub IsWireFrame : TxFrame → Type 0
IsWireFrame f = (f.fsn < seq_modulus) × IsWireBody f.body

-- The same of a link, whose BSN has seven bits too.
pub record IsWire (l : Mtp2Link) : Type 0 where
  pub tx : IsWireTx l.tx
  pub last : l.rx.last_received < seq_modulus

-- MTP3 submits MSUs with at least two octets of service information; what is received fits the wire
-- format, as `decode` sees to.
abbrev pub IsProper : Call → Type 0
IsProper (Call.submit_msu sio sif) = 2 ≤ length sif
IsProper (Call.handle_su su) = IsValid su
IsProper _ = Unit
