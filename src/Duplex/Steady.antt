-- ===== src/Duplex/Steady.antt =====
-- src/link.rs: what a link in service does in a tick in which it sends a frame and receives one.
use mtp.Base.{
  ℕ, ◌<◌, ◌≤◌, ◌≡◌, refl, sym, ◌∙◌, ap, arith, subst, false, List, [], ◌++◌, none, some, length,
  ◌⊎◌, append-nil,
}
use mtp.SignalUnit.Header.{SuHeader}
use mtp.SignalUnit.Unit.{SignalUnit, fisu, msu, max_msu_body}
use mtp.SignalUnit.Build
use mtp.Retransmission.Tx.{TxBody, on_ack, poll}
use mtp.Retransmission.Rx.{RxControl, on_msu}
use mtp.Link.Types.{Event}
use mtp.Link.Engine.{Mtp2Link}
use mtp.Link.Outbound.{
  frame_header, or_fisu, frame_su, transmit_frame, in_service_su, choose, guard_t7, finish,
  poll_transmit,
}
use mtp.Link.Traffic.{
  acknowledged, end_outage, end_busy, deliver, sequence_check, process_in_service_su,
  fisu_or_msu_at, handle_fisu_or_msu,
}
use mtp.Link.Inbound.{dispatch, monitor, handle_su}
use mtp.Link.Time.{step_timer, tick_t7, tick_t6, tick_t1, tick_t4, tick_t3, tick}
use mtp.Link.Invariant.{Inv}
use mtp.Link.Run.{Call, step, step-Inv}
use mtp.Link.Delay.{record_su-IsSound}
use mtp.Link.Reception.{IsServing, tell, handle_su-passed, passed, reported, report-reported}
use mtp.Duplex.Pairing.{taking}

-- A well-formed link that serves, is not congested, and has T7 of two ticks or more.
pub record IsSteady (l : Mtp2Link) : Type 0 where
  pub inv : Inv l
  pub serving : IsServing l
  pub free : l.local_busy ≡ false
  pub delay : 2 ≤ l.config.t7_excessive_delay

abbrev pub Fits : TxBody → Type 0
Fits TxBody.fisu = Unit
Fits (TxBody.msu sio sif) = length sif < max_msu_body

-- The unit that carries a body.
abbrev pub unit : SuHeader → TxBody → SignalUnit
unit h TxBody.fisu = fisu h
unit h (TxBody.msu sio sif) = msu h sio sif

frame_su-unit : (h : SuHeader) (b : TxBody) → Fits b → frame_su h b ≡ unit h b
unfolding frame_su or_fisu Build.msu Build.fisu
frame_su-unit h TxBody.fisu f = refl
frame_su-unit h (TxBody.msu sio sif) f = ground arith

pub poll_transmit-steady :
    (l : Mtp2Link)
    → IsSteady l
    → Fits (poll l.tx).1.body
    → poll_transmit l ≡ (
      guard_t7 (record l { tx = (poll l.tx).0 }),
      some (unit (frame_header l.rx (poll l.tx).1) (poll l.tx).1.body),
    )
unfolding poll_transmit choose finish in_service_su transmit_frame
poll_transmit-steady l s f = ground (
  arith,
  s.serving.state,
  s.serving.free,
  s.serving.up,
  s.free,
  frame_su-unit (frame_header l.rx (poll l.tx).1) (poll l.tx).1.body f,
)

-- What MTP3 is told of a body.
abbrev pub heard : ℕ → TxBody → RxControl → List Event
heard fsn TxBody.fisu r = []
heard fsn (TxBody.msu sio sif) r = tell (on_msu fsn sio sif r).1

-- What a received FISU or MSU does to a serving link.
pub record Receives (h : SuHeader) (b : TxBody) (l l' : Mtp2Link) : Type 0 where
  pub serving : IsServing l'
  pub free : l'.local_busy ≡ l.local_busy
  pub config : l'.config ≡ l.config
  pub tx : l'.tx ≡ on_ack h.bsn h.bib l.tx
  pub rx : l'.rx ≡ taking h.fsn b l.rx
  pub events : l'.events ≡ l.events ++ heard h.fsn b l.rx
  pub t7 : (l'.t7 ≡ none) ⊎ (l'.t7 ≡ some l.config.t7_excessive_delay)

fisu-passed : (h : SuHeader) (l : Mtp2Link) → IsServing l → handle_su (fisu h) l ≡ passed h l
unfolding handle_su monitor dispatch handle_fisu_or_msu fisu_or_msu_at process_in_service_su
    end_outage end_busy deliver acknowledged
fisu-passed h l s = ground (arith, record_su-IsSound l.suerm s.sound)

msu-reported :
    (h : SuHeader) (sio : ℕ) (sif : List ℕ) (l : Mtp2Link)
    → IsServing l
    → let (rx, outcome) = on_msu h.fsn sio sif l.rx in
      handle_su (msu h sio sif) l ≡ reported outcome (record (passed h l) { rx = rx })
unfolding sequence_check acknowledged
msu-reported h sio sif l s =
    let (rx, outcome) = on_msu h.fsn sio sif l.rx in
    handle_su-passed h sio sif l s ∙ report-reported outcome (record (passed h l) { rx = rx })

pub passed-t7 :
    (h : SuHeader) (l : Mtp2Link)
    → ((passed h l).t7 ≡ none) ⊎ ((passed h l).t7 ≡ some l.config.t7_excessive_delay)
unfolding acknowledged
passed-t7 h l = ground arith

pub handle_su-Receives :
    (h : SuHeader) (b : TxBody) (l : Mtp2Link)
    → IsServing l
    → Receives h b l (handle_su (unit h b) l)
handle_su-Receives h TxBody.fisu l s = subst (Receives h TxBody.fisu l) (sym (fisu-passed h l s)) (
    unfold acknowledged in
    record {
      serving = record {
        state = s.state;
        free = s.free;
        up = s.up;
        sound = (record_su-IsSound l.suerm s.sound).0;
      };
      free = refl;
      config = refl;
      tx = refl;
      rx = refl;
      events = sym (append-nil l.events);
      t7 = passed-t7 h l;
    })
handle_su-Receives h (TxBody.msu sio sif) l s =
    subst (Receives h (TxBody.msu sio sif) l) (sym (msu-reported h sio sif l s)) (
      unfold acknowledged in
      record {
        serving = record {
          state = s.state;
          free = s.free;
          up = s.up;
          sound = (record_su-IsSound l.suerm s.sound).0;
        };
        free = refl;
        config = refl;
        tx = refl;
        rx = refl;
        events = refl;
        t7 = passed-t7 h l;
      })

-- A tick that T7 survives.
pub tick-steady :
    (l : Mtp2Link)
    → Inv l
    → IsServing l
    → 2 ≤ l.config.t7_excessive_delay
    → (l.t7 ≡ none) ⊎ (l.t7 ≡ some l.config.t7_excessive_delay)
    → tick l ≡ record l { t7 = (step_timer l.t7).0 }
unfolding tick tick_t3 tick_t4 tick_t1 tick_t6 tick_t7 step_timer
tick-steady l v s two t = ground (arith, s.state, s.free)

-- A link that has received a unit stays steady over the tick, which changes no more than T7.
pub settles :
    (l : Mtp2Link)
    → Inv l
    → IsServing l
    → l.local_busy ≡ false
    → 2 ≤ l.config.t7_excessive_delay
    → (l.t7 ≡ none) ⊎ (l.t7 ≡ some l.config.t7_excessive_delay)
    → IsSteady (tick l) × ((tick l).tx ≡ l.tx) × ((tick l).rx ≡ l.rx) × ((tick l).events ≡ l.events)
settles l v s free two t =
    let e = tick-steady l v s two t in
    (
      record {
        inv = unfold step in step-Inv Call.tick l v;
        serving =
            subst IsServing (sym e)
              (record { state = s.state; free = s.free; up = s.up; sound = s.sound });
        free = ap (λ k. k.local_busy) e ∙ free;
        delay = rw e two;
      },
      ap (λ k. k.tx) e,
      ap (λ k. k.rx) e,
      ap (λ k. k.events) e,
    )

-- The link after a tick.
pub record Rounds (h : SuHeader) (b : TxBody) (l l' : Mtp2Link) : Type 0 where
  pub steady : IsSteady l'
  pub tx : l'.tx ≡ on_ack h.bsn h.bib (poll l.tx).0
  pub rx : l'.rx ≡ taking h.fsn b l.rx
  pub events : l'.events ≡ l.events ++ heard h.fsn b l.rx

pub polled_lem :
    (l : Mtp2Link)
    → let l' = guard_t7 (record l { tx = (poll l.tx).0 }) in
      l' ≡ record l { tx = (poll l.tx).0; t7 = l'.t7 }
unfolding guard_t7
polled_lem l = ground arith

pub round_lem :
    (h : SuHeader) (b : TxBody) (l : Mtp2Link)
    → IsSteady l
    → Fits (poll l.tx).1.body
    → Rounds h b l (tick (handle_su (unit h b) (poll_transmit l).0))
round_lem h b l s f =
    let m = (poll_transmit l).0 in
    let p = record l { tx = (poll l.tx).0; t7 = m.t7 } in
    let sent : m ≡ p =
      let e = ap (λ r. r.0) (poll_transmit-steady l s f) in
      e ∙ polled_lem l ∙ ap (λ k. record p { t7 = k.t7 }) (sym e) in
    let kept : Inv m = unfold step in step-Inv Call.poll_transmit l s.inv in
    let serving : IsServing m = subst IsServing (sym sent) (record {
      state = s.serving.state;
      free = s.serving.free;
      up = s.serving.up;
      sound = s.serving.sound;
    }) in
    let l' = handle_su (unit h b) m in
    let r = handle_su-Receives h b m serving in
    let v : Inv l' = unfold step in step-Inv (Call.handle_su (unit h b)) m kept in
    let config : l'.config ≡ l.config = r.config ∙ ap (λ k. k.config) sent in
    let two : 2 ≤ l'.config.t7_excessive_delay = rw config s.delay in
    let runs : (l'.t7 ≡ none) ⊎ (l'.t7 ≡ some l'.config.t7_excessive_delay) = rw r.config r.t7 in
    let free = r.free ∙ ap (λ k. k.local_busy) sent ∙ s.free in
    let (steady, tx, rx, events) = settles l' v r.serving free two runs in
    record {
      steady = steady;
      tx = tx ∙ r.tx ∙ ap (λ k. on_ack h.bsn h.bib k.tx) sent;
      rx = rx ∙ r.rx ∙ ap (λ k. taking h.fsn b k.rx) sent;
      events = events ∙ r.events ∙ ap (λ k. k.events ++ heard h.fsn b k.rx) sent;
    }
