-- ===== src/Link/Wire/Sent.antt =====
-- src/link.rs: every unit that a link sends fits the wire format.
use mtp.Base.{ℕ, ◌≡◌, ◌||◌, sym, arith, List, [], ◌∷◌, Option, some, All, subst, if_both}
use mathlib.Core.Option.{some-injective, none-ne-some}
use mtp.Error.{ok, ◌>>=◌}
use mtp.SignalUnit.Codec.{encode, decode}
use mtp.SignalUnit.Roundtrip.{decode-encode}
use mtp.SignalUnit.Header.{SuHeader}
use mtp.SignalUnit.Status.{StatusIndication}
use mtp.SignalUnit.Unit.{SignalUnit, msu}
use mtp.SignalUnit.Build
use mtp.SignalUnit.Valid.{IsHeader, IsValid}
use mtp.Retransmission.Tx.{TxBody, poll}
use mtp.Link.Types.{Mtp2State}
use mtp.Link.Config.{Mtp2Config}
use mtp.Link.Engine.{Mtp2Link, new, emit, stop_all_timers}
use mtp.Link.Manage.{begin, submit_msu}
use mtp.Link.Manage
use mtp.Link.Outbound.{
  header_for_control, frame_header, or_fisu, frame_su, transmit_frame, in_service_su, choose,
  finish, poll_transmit,
}
use mtp.Link.Outbound
use mtp.Link.Run.{Call, step, run}
use mtp.Link.Wire.{Fits, IsWireBody, IsWire, IsProper}
use mtp.Link.Wire.Frames.{poll-IsWireTx}
use mtp.Link.Wire.Kept.{
  tick-Same, corrupted-Same, guard_t7-Same, poll_event-Same, outage-Same, recovered-Same,
}
use mtp.Link.Wire.Received.{same, new-IsWire, start-IsWire, submit-IsWire, handle_su-IsWire}

-- An MSU that fits is never replaced by a FISU.
frame_su-msu :
    (h : SuHeader) (sio : ℕ) (sif : List ℕ)
    → Fits sif
    → frame_su h (TxBody.msu sio sif) ≡ msu h sio sif
unfolding frame_su or_fisu Build.msu
frame_su-msu h sio sif f = ground arith

frame_su-IsValid : (h : SuHeader) (b : TxBody) → IsHeader h → IsWireBody b → IsValid (frame_su h b)
frame_su-IsValid h TxBody.fisu v w = unfold frame_su Build.fisu in v
frame_su-IsValid h (TxBody.msu sio sif) v f =
    subst IsValid (sym (frame_su-msu h sio sif f)) (v, f.0, f.1)

-- A unit that fits is sent by a link that fits.
abbrev pub Sends : Mtp2Link × SignalUnit → Type 0
Sends r = IsWire r.0 × IsValid r.1

control-IsHeader : (l : Mtp2Link) → IsWire l → IsHeader (header_for_control l)
unfolding header_for_control
control-IsHeader l w = (w.last, w.tx.last)

control-Sends :
    (l : Mtp2Link) (i : StatusIndication)
    → IsWire l
    → Sends (l, Outbound.lssu i l) × Sends (l, Build.fisu (header_for_control l))
unfolding Outbound.lssu Build.lssu Build.fisu
control-Sends l i w = ((w, control-IsHeader l w), (w, control-IsHeader l w))

transmit-Sends : (l : Mtp2Link) → IsWire l → Sends (transmit_frame l)
unfolding transmit_frame
transmit-Sends l w =
    let frame = (poll l.tx).1 in
    let (tx, f) = poll-IsWireTx l.tx w.tx in
    (
      record { tx = tx; last = w.last },
      frame_su-IsValid (frame_header l.rx frame) frame.body (w.last, f.0) f.1,
    )

in_service-Sends : (l : Mtp2Link) → IsWire l → Sends (in_service_su l)
unfolding in_service_su
in_service-Sends l w =
    let control = control-Sends l StatusIndication.busy w in
    if_both Sends l.local_busy _ _ control.0 (
      if_both Sends (l.remote_processor_outage || l.remote_busy) _ _ control.1 (transmit-Sends l w))

-- The same of what may be nothing.
abbrev pub SendsAny : Mtp2Link × Option SignalUnit → Type 0
SendsAny r = IsWire r.0 × ((su : SignalUnit) → r.1 ≡ some su → IsValid su)

finish-Sends : (r : Mtp2Link × SignalUnit) (l : Mtp2Link) → Sends r → SendsAny (finish l (some r))
unfolding finish
finish-Sends (l', su) l s =
    (same l' _ (guard_t7-Same l') s.0, λ su' e. subst IsValid (some-injective _ _ e) s.1)

pub poll_transmit-SendsAny :
    (l : Mtp2Link) (st : Mtp2State) → IsWire l → SendsAny (finish l (choose st l))
unfolding choose
poll_transmit-SendsAny l Mtp2State.out_of_service w =
    if_both (λ o. SendsAny (finish l o)) l.active _ _
      (finish-Sends _ l (control-Sends l StatusIndication.out_of_service w).0)
      (unfold finish in (w, λ su e. absurd (none-ne-some su e)))
poll_transmit-SendsAny l Mtp2State.not_aligned w =
    finish-Sends _ l (control-Sends l StatusIndication.out_of_alignment w).0
poll_transmit-SendsAny l Mtp2State.aligned w = finish-Sends _ l (control-Sends l _ w).0
poll_transmit-SendsAny l Mtp2State.proving w = finish-Sends _ l (control-Sends l _ w).0
poll_transmit-SendsAny l Mtp2State.aligned_not_ready w =
    finish-Sends _ l (control-Sends l StatusIndication.processor_outage w).0
poll_transmit-SendsAny l Mtp2State.processor_outage w =
    finish-Sends _ l (control-Sends l StatusIndication.processor_outage w).0
poll_transmit-SendsAny l Mtp2State.aligned_ready w =
    finish-Sends _ l (control-Sends l StatusIndication.busy w).1
poll_transmit-SendsAny l Mtp2State.in_service w = finish-Sends _ l (in_service-Sends l w)

pub step-IsWire : (c : Call) (l : Mtp2Link) → IsProper c → IsWire l → IsWire (step c l)
unfolding step
step-IsWire Call.start l p w = start-IsWire l w
step-IsWire Call.stop l p w =
    unfold Manage.stop emit stop_all_timers in record { tx = w.tx; last = w.last }
step-IsWire Call.poll_transmit l p w =
    unfold poll_transmit in (poll_transmit-SendsAny l l.state w).0
step-IsWire Call.poll_event l p w = same l _ (poll_event-Same l) w
step-IsWire Call.tick l p w = same l _ (tick-Same l) w
step-IsWire Call.handle_corrupted_su l p w = same l _ (corrupted-Same l) w
step-IsWire (Call.set_emergency b) l p w =
    unfold Manage.set_emergency in record { tx = w.tx; last = w.last }
step-IsWire Call.local_processor_outage l p w = same l _ (outage-Same l) w
step-IsWire Call.local_processor_recovered l p w = same l _ (recovered-Same l) w
step-IsWire Call.local_busy l p w = unfold Manage.local_busy in record { tx = w.tx; last = w.last }
step-IsWire Call.local_busy_ended l p w =
    unfold Manage.local_busy_ended in record { tx = w.tx; last = w.last }
step-IsWire (Call.submit_msu sio sif) l p w = submit-IsWire sio sif l p w
step-IsWire (Call.handle_su su) l p w = handle_su-IsWire su l p w

run-IsWire : (cs : List Call) (l : Mtp2Link) → All IsProper cs → IsWire l → IsWire (run cs l)
unfolding run
run-IsWire [] l p w = w
run-IsWire (c ∷ cs) l p w = run-IsWire cs (step c l) p.1 (step-IsWire c l p.0 w)

pub poll_transmit-IsValid :
    (config : Mtp2Config) (calls : List Call) (su : SignalUnit)
    → All IsProper calls
    → (poll_transmit (run calls (new config))).1 ≡ some su
    → IsValid su
poll_transmit-IsValid config calls su p e =
    let l = run calls (new config) in
    let sends : SendsAny (poll_transmit l) =
      unfold poll_transmit in
      poll_transmit-SendsAny l l.state (run-IsWire calls (new config) p (new-IsWire config)) in
    sends.1 su e

-- Whatever is called on a new link, provided that MTP3 submits MSUs with at least two octets of
-- service information and that received units fit the wire format, as decoded ones do: each unit that
-- the link sends fits it too, so it is encoded without an error, and the peer decodes the same unit.
pub poll_transmit-decode :
    (config : Mtp2Config) (calls : List Call) (su : SignalUnit)
    → All IsProper calls
    → (poll_transmit (run calls (new config))).1 ≡ some su
    → (encode su >>= decode) ≡ ok su
poll_transmit-decode config calls su p e =
    decode-encode su (poll_transmit-IsValid config calls su p e)
