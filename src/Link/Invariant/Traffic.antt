-- ===== src/Link/Invariant/Traffic.antt =====
-- src/link.rs: a received FISU or MSU keeps the invariant of a link.
use mtp.Base.{ℕ, ◌≡◌, refl, arith, true, Option, none, some, List}
use mtp.SignalUnit.Header.{SuHeader}
use mtp.Retransmission.Rx.{RxOutcome}
use mtp.Link.Types.{Mtp2State}
use mtp.Link.Engine.{Mtp2Link, emit, enter_in_service}
use mtp.Link.Lssu.{carries_traffic}
use mtp.Link.Traffic.{
  acknowledged, end_outage, end_busy, report, sequence_check, deliver, process_in_service_su,
  fisu_or_msu_at, handle_fisu_or_msu,
}
use mtp.Link.Invariant.{Inv}
use mtp.Link.Invariant.Engine.{enter_in_service-Inv}

acknowledged-Inv :
    (h : SuHeader) (l : Mtp2Link) → carries_traffic l.state ≡ true → Inv l → Inv (acknowledged h l)
unfolding acknowledged
acknowledged-Inv h l c v = ground arith

end_outage-Inv : (l : Mtp2Link) → Inv l → Inv (end_outage l)
unfolding end_outage emit
end_outage-Inv l v = ground arith

end_busy-Inv : (l : Mtp2Link) → Inv l → Inv (end_busy l)
unfolding end_busy emit
end_busy-Inv l v = ground arith

report-Inv : (o : RxOutcome) (l : Mtp2Link) → Inv l → Inv (report o l)
unfolding report emit
report-Inv o l v = ground arith

sequence_check-Inv :
    (fsn sio : ℕ) (sif : List ℕ) (l : Mtp2Link) → Inv l → Inv (sequence_check fsn sio sif l)
unfolding sequence_check
sequence_check-Inv fsn sio sif l v = report-Inv _ _ (ground arith)

deliver-Inv :
    (h : SuHeader) (payload : Option (ℕ × List ℕ)) (l : Mtp2Link)
    → Inv l
    → Inv (deliver h payload l)
unfolding deliver
deliver-Inv h none l v = v
deliver-Inv h (some (sio, sif)) l v = ground (arith, sequence_check-Inv h.fsn sio sif l v)

process_in_service_su-Inv :
    (h : SuHeader) (payload : Option (ℕ × List ℕ)) (l : Mtp2Link)
    → carries_traffic l.state ≡ true
    → Inv l
    → Inv (process_in_service_su h payload l)
unfolding process_in_service_su
process_in_service_su-Inv h payload l c v =
    deliver-Inv h payload _ (end_busy-Inv _ (end_outage-Inv _ (acknowledged-Inv h l c v)))

state-enter_in_service : (l : Mtp2Link) → (enter_in_service l).state ≡ Mtp2State.in_service
unfolding enter_in_service emit
state-enter_in_service l = refl

fisu_or_msu_at-Inv :
    (st : Mtp2State) (h : SuHeader) (payload : Option (ℕ × List ℕ)) (l : Mtp2Link)
    → l.state ≡ st
    → Inv l
    → Inv (fisu_or_msu_at st h payload l)
unfolding fisu_or_msu_at
fisu_or_msu_at-Inv Mtp2State.aligned_ready h payload l e v =
    process_in_service_su-Inv h payload (enter_in_service l) (rw (state-enter_in_service l))
      (enter_in_service-Inv l e v)
fisu_or_msu_at-Inv Mtp2State.in_service h payload l e v =
    process_in_service_su-Inv h payload l (rw e) v
fisu_or_msu_at-Inv Mtp2State.processor_outage h payload l e v =
    process_in_service_su-Inv h payload l (rw e) v
fisu_or_msu_at-Inv _ h payload l e v = v

pub handle_fisu_or_msu-Inv :
    (h : SuHeader) (payload : Option (ℕ × List ℕ)) (l : Mtp2Link)
    → Inv l
    → Inv (handle_fisu_or_msu h payload l)
unfolding handle_fisu_or_msu
handle_fisu_or_msu-Inv h payload l v = fisu_or_msu_at-Inv l.state h payload l refl v
