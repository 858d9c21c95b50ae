-- ===== src/Leak/Workloads.antt =====
-- examples/leak_check.rs: the runs of the two workloads.
use mtp.Base.{
  ℕ, zero, suc, ◌≡◌, refl, true, false, List, [], ◌∷◌, ◌++◌, replicate, some, All, arith,
}
use mtp.Error.{Result, ok, err, ◌>>=◌}
use mtp.SignalUnit.Header.{SuHeader}
use mtp.SignalUnit.Header
use mtp.SignalUnit.Status.{StatusIndication}
use mtp.SignalUnit.Unit.{SignalUnit, fisu, lssu, msu}
use mtp.SignalUnit.Build
use mtp.SignalUnit.Codec.{encode, decode}
use mtp.SignalUnit.Valid.{IsValid}
use mtp.SignalUnit.Roundtrip.{decode-encode}
use mtp.Link.Types.{Mtp2State}
use mtp.Monitor.Aerm.{restart}
use mtp.Monitor.Aerm
use mtp.Monitor.Suerm.{reset, record_su}
use mtp.Monitor.Suerm
use mtp.Retransmission.Seq.{seq_forward, seq_add}
use mtp.Retransmission.Tx.{
  poll, poll_by, poll_basic, basic_from, basic_fresh, send_new, submit, on_ack, acknowledge, free,
  nack,
}
use mtp.Retransmission.Tx
use mtp.Retransmission.Rx.{on_msu}
use mtp.Retransmission.Rx
use mtp.Link.Engine.{
  new, stop_all_timers, emit, poll_event, enter_proving, proving_succeeded, enter_in_service,
}
use mtp.Link.Outbound.{
  poll_transmit, choose, finish, in_service_su, transmit_frame, frame_su, or_fisu, guard_t7,
  header_for_control,
}
use mtp.Link.Outbound
use mtp.Link.Manage.{begin, submit_msu, start}
use mtp.Link.Lssu.{handle_lssu, lssu_at, upgrade, from_not_aligned, from_aligned}
use mtp.Link.Traffic.{
  handle_fisu_or_msu, fisu_or_msu_at, process_in_service_su, acknowledged, end_outage, end_busy,
  deliver, sequence_check, report,
}
use mtp.Link.Inbound.{handle_su, monitor, dispatch}
use mtp.Link.Time.{tick, tick_t3, tick_t4, tick_t1, tick_t6, tick_t7, step_timer}
use mtp.Leak.Cycles.{
  sif, units, transcode, codec_rounds, codec_cycle, Round, state_machine_round,
  state_machine_rounds, state_machine_cycle, brought_up, ticks, drain,
}

abbrev header : SuHeader
header = record { bsn = 5; bib = true; fsn = 6; fib = true }

-- The three units of the codec's workload.
abbrev pub three : List SignalUnit
three = fisu header ∷ lssu header StatusIndication.normal_alignment false ∷ msu header 0x83 sif ∷ []

units_lem : units ≡ ok three
unfolding units Header.new Build.fisu Build.lssu Build.msu
units_lem = refl

pub three-IsValid : All IsValid three
three-IsValid = ground arith

transcoded :
    (r : Result (List ℕ)) (su : SignalUnit) (sus : List SignalUnit)
    → (r >>= decode) ≡ ok su
    → transcode sus ≡ ok sus
    → (r >>= λ bytes. decode bytes >>= λ su'. transcode sus >>= λ sus'. ok (su' ∷ sus'))
      ≡ ok (su ∷ sus)
transcoded (ok bytes) su sus e f = rw e (rw f refl)
transcoded (err x) su sus e f = ground (arith, e)

transcode_lem : (sus : List SignalUnit) → All IsValid sus → transcode sus ≡ ok sus
unfolding transcode
transcode_lem [] v = refl
transcode_lem (su ∷ sus) v =
    transcoded (encode su) su sus (decode-encode su v.0) (transcode_lem sus v.1)

-- A number of times the same list.
unfoldable pub copies : ℕ → List SignalUnit → List SignalUnit
copies zero sus = []
copies (suc n) sus = sus ++ copies n sus

codec_rounds_lem :
    (n : ℕ) (sus : List SignalUnit) → All IsValid sus → codec_rounds n sus ≡ ok (copies n sus)
unfolding codec_rounds copies
codec_rounds_lem zero sus v = refl
codec_rounds_lem (suc n) sus v = rw (transcode_lem sus v) (rw (codec_rounds_lem n sus v) refl)

abbrev peer : SuHeader
peer = record { bsn = 127; bib = true; fsn = 127; fib = true }

-- What each round of the state machine's workload comes to.
abbrev pub msu_sent : SignalUnit
msu_sent = msu (record peer { fsn = 0 }) 0x83 (0x01 ∷ 0x02 ∷ 0x03 ∷ [])

-- A round that is in service, sends the MSU and leaves no event.
abbrev pub IsPassed : Round → Type 0
IsPassed r =
    (r.state ≡ Mtp2State.in_service)
    × (r.sent ≡ some msu_sent)
    × (r.drained ≡ true)
    × (r.link.events ≡ [])

round_lem : (h : SuHeader) → (r : Round) × (state_machine_round h ≡ ok r) × IsPassed r
unfolding state_machine_round brought_up ticks drain Header.new poll_transmit choose finish
    in_service_su transmit_frame frame_su or_fisu guard_t7 Build.msu Build.fisu Build.lssu
    Outbound.lssu header_for_control poll poll_by poll_basic basic_from basic_fresh send_new seq_add
    submit submit_msu new start begin stop_all_timers emit poll_event enter_proving
    proving_succeeded enter_in_service handle_su monitor dispatch handle_lssu lssu_at upgrade
    from_not_aligned from_aligned handle_fisu_or_msu fisu_or_msu_at process_in_service_su
    acknowledged end_outage end_busy deliver sequence_check report on_ack acknowledge free nack
    on_msu seq_forward Tx.new Rx.new Suerm.new Aerm.new restart reset record_su tick tick_t3 tick_t4
    tick_t1 tick_t6 tick_t7 step_timer
round_lem h = (_, refl, (refl, refl, refl, refl))

rounds_lem :
    (n : ℕ) (h : SuHeader) (r : Round)
    → state_machine_round h ≡ ok r
    → state_machine_rounds n h ≡ ok (replicate n r)
unfolding state_machine_rounds
rounds_lem zero h r e = refl
rounds_lem (suc n) h r e = rw e (rw (rounds_lem n h r e) refl)

-- The two workloads, whose runs are over three units and over links with their own configuration.
pub workloads_pass :
    (n : ℕ)
    → (codec_cycle n ≡ ok (copies n three))
      × ((r : Round) × (state_machine_cycle n ≡ ok (replicate n r)) × IsPassed r)
unfolding codec_cycle state_machine_cycle Header.new
workloads_pass n =
    let (r, e, passed) = round_lem peer in
    (rw units_lem (codec_rounds_lem n three three-IsValid), (r, rounds_lem n peer r e, passed))
