-- ===== src/Retransmission/Tx.antt =====
-- src/retransmission.rs: the transmit side, `TxControl`. A method with `&mut self` returns the new
-- controller. `VecDeque` is a list, its front first.
use mtp.Base.{
  ℕ, ◌+◌, ◌-◌, Bool, true, false, not, ◌&&◌, ◌||◌, Option, none, some, List, [], ◌∷◌, ◌++◌, u8,
  length, get_elem?, leb, ltb, if◌then◌else◌,
}
use mtp.SignalUnit.Header.{seq_modulus}
use mtp.Retransmission.Seq.{seq_half, seq_add, seq_forward}
use mtp.Retransmission.Method.{RetransmissionMethod, PcrParams, basic, pcr}

-- `BufferedMsu`.
pub record BufferedMsu : Type 0 where
  pub fsn : ℕ
  pub sio : ℕ
  pub sif : List ℕ

-- `TxBody`.
pub data TxBody : Type 0 where
  fisu : TxBody
  msu : ℕ → List ℕ → TxBody

-- `TxFrame`.
pub record TxFrame : Type 0 where
  pub fsn : ℕ
  pub fib : Bool
  pub body : TxBody

-- `TxControl`.
pub record TxControl : Type 0 where
  pub method : RetransmissionMethod
  pub last_fsn : ℕ
  pub fib : Bool
  pub pending : List (ℕ × List ℕ)
  pub unacked : List BufferedMsu
  pub basic_cursor : Option ℕ
  pub pcr_cursor : ℕ
  pub last_acked : ℕ

-- `TxControl::new`.
unfoldable pub new : RetransmissionMethod → TxControl
new method = record {
  method = method;
  last_fsn = u8 (seq_modulus - 1);
  fib = true;
  pending = [];
  unacked = [];
  basic_cursor = none;
  pcr_cursor = 0;
  last_acked = u8 (seq_modulus - 1);
}

-- `TxControl::unacked_len`.
abbrev pub unacked_len : TxControl → ℕ
unacked_len t = length t.unacked

-- `TxControl::submit`.
unfoldable pub submit : ℕ → List ℕ → TxControl → TxControl
submit sio sif t = record t { pending = t.pending ++ ((sio, sif) ∷ []) }

-- The sum of `TxControl::unacked_octets`.
unfoldable pub octets : List BufferedMsu → ℕ
octets [] = 0
octets (m ∷ ms) = (1 + length m.sif) + octets ms

-- The frame that sends a buffered MSU again.
abbrev pub resend : Bool → BufferedMsu → TxFrame
resend fib m = record { fsn = m.fsn; fib = fib; body = msu m.sio m.sif }

-- The frame that fills an idle link.
abbrev pub fill : TxControl → TxFrame
fill t = record { fsn = t.last_fsn; fib = t.fib; body = fisu }

-- The next FSN is assigned, and the MSU is buffered and sent. `rest` is what is left pending.
unfoldable pub send_new : ℕ → List ℕ → List (ℕ × List ℕ) → TxControl → TxControl × TxFrame
send_new sio sif rest t =
    let fsn = seq_add t.last_fsn 1 in
    let m : BufferedMsu = record { fsn = fsn; sio = sio; sif = sif } in
    (record t { last_fsn = fsn; pending = rest; unacked = t.unacked ++ (m ∷ []) }, resend t.fib m)

-- Cases 2 and 3 of `poll_basic`, by the pending queue.
unfoldable pub basic_fresh : List (ℕ × List ℕ) → TxControl → TxControl × TxFrame
unfolding send_new
basic_fresh [] t = (t, fill t)
basic_fresh ((sio, sif) ∷ rest) t = send_new sio sif rest t

-- Case 1, by the element of the buffer at the cursor: none is there once the cursor has passed it.
unfoldable pub basic_resend : ℕ → Option BufferedMsu → TxControl → TxControl × TxFrame
unfolding basic_fresh
basic_resend cursor none t = let t' = record t { basic_cursor = none } in basic_fresh t'.pending t'
basic_resend cursor (some m) t = (record t { basic_cursor = some (cursor + 1) }, resend t.fib m)

unfoldable pub basic_from : Option ℕ → TxControl → TxControl × TxFrame
unfolding basic_fresh basic_resend
basic_from none t = basic_fresh t.pending t
basic_from (some cursor) t = basic_resend cursor (get_elem? t.unacked cursor) t

-- `TxControl::poll_basic`.
unfoldable pub poll_basic : TxControl → TxControl × TxFrame
unfolding basic_from
poll_basic t = basic_from t.basic_cursor t

-- The sweep over a buffer that is not empty, by the element at the cursor. The cursor has been
-- brought into range, so one is there; a read out of range, which would panic, gives a fill-in.
unfoldable pub sweep_at : ℕ → Option BufferedMsu → TxControl → TxControl × TxFrame
sweep_at cursor none t = (t, fill t)
sweep_at cursor (some m) t = (record t { pcr_cursor = cursor + 1 }, resend t.fib m)

unfoldable pub pcr_sweep : List BufferedMsu → TxControl → TxControl × TxFrame
unfolding sweep_at
pcr_sweep [] t = (t, fill t)
pcr_sweep (m ∷ ms) t =
    let cursor = if leb (length (m ∷ ms)) t.pcr_cursor then 0 else t.pcr_cursor in
    sweep_at cursor (get_elem? (m ∷ ms) cursor) t

unfoldable pub pcr_fresh : List (ℕ × List ℕ) → TxControl → TxControl × TxFrame
unfolding send_new pcr_sweep
pcr_fresh [] t = pcr_sweep t.unacked t
pcr_fresh ((sio, sif) ∷ rest) t =
    let (t', frame) = send_new sio sif rest t in (record t' { pcr_cursor = 0 }, frame)

-- The test for forced retransmission.
unfoldable pub forced : PcrParams → TxControl → Bool
forced params t = leb params.n1 (unacked_len t) || leb params.n2 (octets t.unacked)

-- `TxControl::poll_pcr`.
unfoldable pub poll_pcr : PcrParams → TxControl → TxControl × TxFrame
unfolding pcr_sweep pcr_fresh
poll_pcr params t = if forced params t then pcr_sweep t.unacked t else pcr_fresh t.pending t

unfoldable pub poll_by : RetransmissionMethod → TxControl → TxControl × TxFrame
poll_by basic t = poll_basic t
poll_by (pcr params) t = poll_pcr params t

-- `TxControl::poll`.
unfoldable pub poll : TxControl → TxControl × TxFrame
unfolding poll_by
poll t = poll_by t.method t

-- The loop of `on_ack`: what is left of the buffer, and whether anything was freed.
unfoldable pub free : ℕ → List BufferedMsu → List BufferedMsu × Bool
free bsn [] = ([], false)
free bsn (front ∷ rest) =
    let (left, _) = free bsn rest in
    if ltb (seq_forward bsn front.fsn) seq_half then (left, true) else (front ∷ rest, false)

-- `*cursor = cursor.saturating_sub(1)`, where a cursor is set.
abbrev pub back_one : Option ℕ → Option ℕ
back_one none = none
back_one (some cursor) = some (cursor - 1)

-- The positive acknowledgement of `on_ack`.
unfoldable pub acknowledge : ℕ → TxControl → TxControl
acknowledge bsn t =
    let (left, freed) = free bsn t.unacked in
    if freed
    then record t {
      unacked = left;
      last_acked = bsn;
      pcr_cursor = 0;
      basic_cursor = back_one t.basic_cursor;
    }
    else record t { unacked = left }

abbrev pub bool_ne : Bool → Bool → Bool
bool_ne true b = not b
bool_ne false b = b

abbrev pub is_basic : RetransmissionMethod → Bool
is_basic basic = true
is_basic (pcr _) = false

abbrev pub restart_at : List BufferedMsu → Option ℕ → Option ℕ
restart_at [] cursor = cursor
restart_at (_ ∷ _) cursor = some 0

-- The negative acknowledgement of `on_ack`.
unfoldable pub nack : Bool → TxControl → TxControl
nack bib t =
    if is_basic t.method && bool_ne bib t.fib
    then record t { fib = bib; basic_cursor = restart_at t.unacked t.basic_cursor }
    else t

-- `TxControl::on_ack`.
unfoldable pub on_ack : ℕ → Bool → TxControl → TxControl
unfolding acknowledge nack
on_ack bsn bib t = nack bib (acknowledge bsn t)
