-- ===== src/Retransmission/Rx.antt =====
-- src/retransmission.rs: the receive side, `RxControl`.
use mtp.Base.{ℕ, ◌-◌, Bool, true, false, not, ◌&&◌, List, u8, ◌==◌, ltb, if◌then◌else◌}
use mtp.SignalUnit.Header.{seq_modulus}
use mtp.Retransmission.Seq.{seq_half, seq_forward}
use mtp.Retransmission.Method.{RetransmissionMethod}
use mtp.Retransmission.Tx.{is_basic}

-- `RxOutcome`.
pub data RxOutcome : Type 0 where
  accepted : ℕ → List ℕ → RxOutcome
  discarded retransmission_requested : RxOutcome

-- `RxControl`.
pub record RxControl : Type 0 where
  pub method : RetransmissionMethod
  pub last_received : ℕ
  pub bib : Bool
  pub nack_pending : Bool

-- `RxControl::new`.
unfoldable pub new : RetransmissionMethod → RxControl
new method = record {
  method = method;
  last_received = u8 (seq_modulus - 1);
  bib = true;
  nack_pending = false;
}

-- A gap under the Basic method: the first toggles the BIB.
unfoldable pub request : RxControl → RxControl
request r = if r.nack_pending then r else record r { bib = not r.bib; nack_pending = true }

-- `RxControl::on_msu`.
unfoldable pub on_msu : ℕ → ℕ → List ℕ → RxControl → RxControl × RxOutcome
unfolding request
on_msu fsn sio sif r =
    let dist = seq_forward fsn r.last_received in
    if dist == 1
    then (record r { last_received = fsn; nack_pending = false }, accepted sio sif)
    else if is_basic r.method && ltb dist seq_half
    then (request r, retransmission_requested)
    else (r, discarded)
