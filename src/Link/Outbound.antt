-- ===== src/Link/Outbound.antt =====
-- src/link.rs: the next signal unit to transmit.
use mtp.Base.{ℕ, Bool, ◌&&◌, ◌||◌, Option, none, some, ltb, if◌then◌else◌}
use mtp.Error.{Result, ok, err}
use mtp.SignalUnit.Status.{StatusIndication}
use mtp.SignalUnit.Header.{SuHeader}
use mtp.SignalUnit.Unit.{SignalUnit}
use mtp.SignalUnit.Build
use mtp.Retransmission.Tx.{TxControl, TxBody, TxFrame, unacked_len}
use mtp.Retransmission.Tx
use mtp.Retransmission.Rx.{RxControl}
use mtp.Link.Types.{Mtp2State}
use mtp.Link.Engine.{Mtp2Link}

-- `Mtp2Link::header_for_control`.
unfoldable pub header_for_control : Mtp2Link → SuHeader
header_for_control l = record {
  bsn = l.rx.last_received;
  bib = l.rx.bib;
  fsn = l.tx.last_fsn;
  fib = l.tx.fib;
}

-- `Mtp2Link::lssu`.
unfoldable pub lssu : StatusIndication → Mtp2Link → SignalUnit
lssu status l = Build.lssu (header_for_control l) status

-- The header of a frame.
abbrev pub frame_header : RxControl → TxFrame → SuHeader
frame_header rx frame = record {
  bsn = rx.last_received;
  bib = rx.bib;
  fsn = frame.fsn;
  fib = frame.fib;
}

-- The signal unit that carries a frame: the size was tested when the MSU was submitted.
unfoldable pub or_fisu : SuHeader → Result SignalUnit → SignalUnit
or_fisu h (ok su) = su
or_fisu h (err _) = Build.fisu h

unfoldable pub frame_su : SuHeader → TxBody → SignalUnit
frame_su h TxBody.fisu = Build.fisu h
frame_su h (TxBody.msu sio sif) = or_fisu h (Build.msu h sio sif)

-- A frame of the transmit side goes out.
unfoldable pub transmit_frame : Mtp2Link → Mtp2Link × SignalUnit
transmit_frame l =
    let (tx, frame) = Tx.poll l.tx in
    (record l { tx = tx }, frame_su (frame_header l.rx frame) frame.body)

unfoldable pub in_service_su : Mtp2Link → Mtp2Link × SignalUnit
in_service_su l =
    if l.local_busy
    then (l, lssu StatusIndication.busy l)
    else if l.remote_processor_outage || l.remote_busy
    then (l, Build.fisu (header_for_control l))
    else transmit_frame l

-- SIN, or SIE where alignment is an emergency.
abbrev pub alignment_status : Mtp2Link → StatusIndication
alignment_status l =
    if l.emergency then StatusIndication.emergency_alignment else StatusIndication.normal_alignment

-- The `match` on the state; `none` is its early return.
unfoldable pub choose : Mtp2State → Mtp2Link → Option (Mtp2Link × SignalUnit)
choose Mtp2State.out_of_service l =
    if l.active then some (l, lssu StatusIndication.out_of_service l) else none
choose Mtp2State.not_aligned l = some (l, lssu StatusIndication.out_of_alignment l)
choose Mtp2State.aligned l = some (l, lssu (alignment_status l) l)
choose Mtp2State.proving l = some (l, lssu (alignment_status l) l)
choose Mtp2State.aligned_not_ready l = some (l, lssu StatusIndication.processor_outage l)
choose Mtp2State.processor_outage l = some (l, lssu StatusIndication.processor_outage l)
choose Mtp2State.aligned_ready l = some (l, Build.fisu (header_for_control l))
choose Mtp2State.in_service l = some (in_service_su l)

abbrev pub is_in_service : Mtp2State → Bool
is_in_service Mtp2State.in_service = Bool.true
is_in_service _ = Bool.false

abbrev pub is_none : Option ℕ → Bool
is_none none = Bool.true
is_none (some _) = Bool.false

-- T7 starts when MSUs are outstanding in service.
unfoldable pub guard_t7 : Mtp2Link → Mtp2Link
guard_t7 l =
    if is_in_service l.state && ltb 0 (unacked_len l.tx) && is_none l.t7
    then record l { t7 = some l.config.t7_excessive_delay }
    else l

unfoldable pub finish : Mtp2Link → Option (Mtp2Link × SignalUnit) → Mtp2Link × Option SignalUnit
finish l none = (l, none)
finish l (some (l', su)) = (guard_t7 l', some su)

-- `Mtp2Link::poll_transmit`.
unfoldable pub poll_transmit : Mtp2Link → Mtp2Link × Option SignalUnit
poll_transmit l = finish l (choose l.state l)
