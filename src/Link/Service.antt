-- ===== src/Link/Service.antt =====
-- src/link.rs: the SUERM and the link that it watches.
use mtp.Base.{
  ℕ, ◌≡◌, refl, sym, ◌∙◌, ap, arith, Bool, true, false, not, List, [], ◌∷◌, Option, none, some,
  Bool-cases, inl, inr,
}
use mtp.SignalUnit.Header.{SuHeader}
use mtp.SignalUnit.Unit.{fisu, msu}
use mtp.Monitor.Suerm.{Suerm, record_su}
use mtp.Monitor.Bucket.{record_all}
use mtp.Monitor.Rate.{record_all-failed}
use mtp.Link.Types.{Mtp2State}
use mtp.Link.Engine.{Mtp2Link, emit, stop_all_timers, fail_out_of_service}
use mtp.Link.Lssu.{carries_traffic}
use mtp.Link.Traffic.{
  acknowledged, end_outage, end_busy, deliver, sequence_check, report, process_in_service_su,
  fisu_or_msu_at, handle_fisu_or_msu,
}
use mtp.Link.Inbound.{dispatch, monitor, handle_su, proving_error, handle_corrupted_su}
use mtp.Link.Diagram.States.{traffic-state}
use mtp.Link.Run.{Call, step, run}

-- What comes in: a corrupted unit, or a FISU or an MSU with any header.
pub data Arrival : Type 0 where
  corrupted : Arrival
  idle : SuHeader → Arrival
  message : SuHeader → ℕ → List ℕ → Arrival

abbrev pub received : Arrival → Call
received Arrival.corrupted = Call.handle_corrupted_su
received (Arrival.idle h) = Call.handle_su (fisu h)
received (Arrival.message h sio sif) = Call.handle_su (msu h sio sif)

abbrev pub received_all : List Arrival → List Call
received_all [] = []
received_all (u ∷ us) = received u ∷ received_all us

-- The units as the SUERM sees them.
abbrev pub is_corrupted : Arrival → Bool
is_corrupted Arrival.corrupted = true
is_corrupted _ = false

abbrev pub flags : List Arrival → List Bool
flags [] = []
flags (u ∷ us) = is_corrupted u ∷ flags us

end_outage-suerm : (l : Mtp2Link) → (end_outage l).suerm ≡ l.suerm
unfolding end_outage emit
end_outage-suerm l = ground arith

end_busy-suerm : (l : Mtp2Link) → (end_busy l).suerm ≡ l.suerm
unfolding end_busy emit
end_busy-suerm l = ground arith

deliver-suerm :
    (h : SuHeader) (p : Option (ℕ × List ℕ)) (l : Mtp2Link) → (deliver h p l).suerm ≡ l.suerm
unfolding deliver sequence_check report emit
deliver-suerm h p l = ground arith

pub process-suerm :
    (h : SuHeader) (p : Option (ℕ × List ℕ)) (l : Mtp2Link)
    → ((process_in_service_su h p l).suerm ≡ l.suerm)
      × ((process_in_service_su h p l).state ≡ l.state)
unfolding process_in_service_su acknowledged
process-suerm h p l =
    let a = acknowledged h l in
    (
      deliver-suerm h p (end_busy (end_outage a))
          ∙ end_busy-suerm (end_outage a)
          ∙ end_outage-suerm a,
      traffic-state h p l,
    )

-- What one unit does to a link that carries traffic.
abbrev pub Watched : Bool → Mtp2Link → Mtp2Link → Type 0
Watched e l l' =
    ((record_su e l.suerm).1 ≡ true → l'.state ≡ Mtp2State.out_of_service)
    × ((record_su e l.suerm).1 ≡ false
        → (carries_traffic l'.state ≡ true) × (l'.suerm ≡ (record_su e l.suerm).0))

corrupted-Watched :
    (l : Mtp2Link) → carries_traffic l.state ≡ true → Watched true l (handle_corrupted_su l)
unfolding handle_corrupted_su proving_error monitor fail_out_of_service emit stop_all_timers
corrupted-Watched l c = ground arith

fisu-Watched :
    (h : SuHeader) (l : Mtp2Link)
    → carries_traffic l.state ≡ true
    → Watched false l (handle_su (fisu h) l)
unfolding handle_su monitor dispatch handle_fisu_or_msu fisu_or_msu_at fail_out_of_service emit
    stop_all_timers
fisu-Watched h l c =
    ground (arith, process-suerm h none (record l { suerm = (record_su false l.suerm).0 }))

msu-Watched :
    (h : SuHeader) (sio : ℕ) (sif : List ℕ) (l : Mtp2Link)
    → carries_traffic l.state ≡ true
    → Watched false l (handle_su (msu h sio sif) l)
unfolding handle_su monitor dispatch handle_fisu_or_msu fisu_or_msu_at fail_out_of_service emit
    stop_all_timers
msu-Watched h sio sif l c =
    ground
      (arith, process-suerm h (some (sio, sif)) (record l { suerm = (record_su false l.suerm).0 }))

step-Watched :
    (u : Arrival) (l : Mtp2Link)
    → carries_traffic l.state ≡ true
    → Watched (is_corrupted u) l (step (received u) l)
unfolding step
step-Watched Arrival.corrupted l c = corrupted-Watched l c
step-Watched (Arrival.idle h) l c = fisu-Watched h l c
step-Watched (Arrival.message h sio sif) l c = msu-Watched h sio sif l c

-- Out of service nothing more happens.
out-stays :
    (u : Arrival) (l : Mtp2Link)
    → l.state ≡ Mtp2State.out_of_service
    → (step (received u) l).state ≡ Mtp2State.out_of_service
unfolding step handle_corrupted_su proving_error monitor handle_su dispatch handle_fisu_or_msu
    fisu_or_msu_at
out-stays Arrival.corrupted l s = ground arith
out-stays (Arrival.idle h) l s = ground arith
out-stays (Arrival.message h sio sif) l s = ground arith

run-out :
    (us : List Arrival) (l : Mtp2Link)
    → l.state ≡ Mtp2State.out_of_service
    → carries_traffic (run (received_all us) l).state ≡ false
unfolding run
run-out [] l s = ap carries_traffic s
run-out (u ∷ us) l s = run-out us (step (received u) l) (out-stays u l s)

record_su-failed : (e : Bool) (m : Suerm) → (record_su e m).0.failed ≡ (record_su e m).1
unfolding record_su
record_su-failed e m = refl

-- A link that carries traffic, on which the SUERM has not failed, stays in service exactly as long
-- as that does not, whatever sequence of corrupted units, FISUs and MSUs is received, each with its
-- own header.
pub run-failed :
    (us : List Arrival) (l : Mtp2Link)
    → carries_traffic l.state ≡ true
    → l.suerm.failed ≡ false
    → carries_traffic (run (received_all us) l).state ≡ not (record_all (flags us) l.suerm).failed
unfolding run record_all
run-failed [] l c f = c ∙ ap not (sym f)
run-failed (u ∷ us) l c f =
    let e = is_corrupted u in
    let (fails, holds) = step-Watched u l c in
    let m = (record_su e l.suerm).0 in
    let l' = step (received u) l in
    elim (Bool-cases (record_su e l.suerm).1) [
      | inl b ↦
          run-out us l' (fails b)
          ∙ sym (ap not (record_all-failed (flags us) m (record_su-failed e l.suerm ∙ b)))
      | inr b ↦
          (let (c', same) = holds b in
            run-failed us l' c' (ap (λ k. k.failed) same ∙ record_su-failed e l.suerm ∙ b)
            ∙ ap (λ k. not (record_all (flags us) k).failed) same)
    ]
