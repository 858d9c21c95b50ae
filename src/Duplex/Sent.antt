-- ===== src/Duplex/Sent.antt =====
-- src/link.rs: what a sent signal unit carries of the transmit and the receive side.
use mtp.Base.{
  ℕ, ◌||◌, List, [], ◌∷◌, Bool, ◌≡◌, refl, sym, ◌∙◌, ap, arith, if_both, ◌⊎◌, inl, inr, Option,
  some, subst,
}
use mathlib.Core.Option.{some-injective, none-ne-some}
use mtp.SignalUnit.Header.{SuHeader}
use mtp.SignalUnit.Status.{StatusIndication}
use mtp.SignalUnit.Unit.{SignalUnit, fisu, lssu, msu}
use mtp.SignalUnit.Build
use mtp.Retransmission.Tx.{TxBody, TxFrame, TxControl, poll}
use mtp.Retransmission.Rx.{RxControl}
use mtp.Link.Types.{Mtp2State}
use mtp.Link.Engine.{Mtp2Link}
use mtp.Link.Outbound.{
  header_for_control, frame_header, or_fisu, frame_su, transmit_frame, in_service_su, choose,
  finish, poll_transmit, guard_t7,
}
use mtp.Link.Outbound
use mtp.Link.Wire.Kept.{guard_t7-Same}

-- The frame of an MSU; a FISU or an LSSU carries none that its receiver would use.
abbrev pub frame_of : SignalUnit → List TxFrame
frame_of (fisu _) = []
frame_of (lssu _ _ _) = []
frame_of (msu h sio sif) = record { fsn = h.fsn; fib = h.fib; body = TxBody.msu sio sif } ∷ []

-- The acknowledgement of a FISU or an MSU; that of an LSSU is not used.
abbrev pub ack_of : SignalUnit → List (ℕ × Bool)
ack_of (fisu h) = (h.bsn, h.bib) ∷ []
ack_of (lssu _ _ _) = []
ack_of (msu h _ _) = (h.bsn, h.bib) ∷ []

-- What a link that sends a unit has done to its transmit side: nothing, or a poll, the frame of
-- which may be left out.
pub data Polls (t : TxControl) (t' : TxControl) (su : SignalUnit) : Type 0 where
  nothing : t' ≡ t → frame_of su ≡ [] → Polls t t' su
  empty : t' ≡ (poll t).0 → frame_of su ≡ [] → Polls t t' su
  frame : t' ≡ (poll t).0 → frame_of su ≡ (poll t).1 ∷ [] → Polls t t' su

-- The unit acknowledges what the receive side has received, unless it is an LSSU.
abbrev pub Acknowledges : RxControl → SignalUnit → Type 0
Acknowledges r su = (ack_of su ≡ []) ⊎ (ack_of su ≡ (r.last_received, r.bib) ∷ [])

pub record Sends (l l' : Mtp2Link) (su : SignalUnit) : Type 0 where
  pub tx : Polls l.tx l'.tx su
  pub rx : l'.rx ≡ l.rx
  pub events : l'.events ≡ l.events
  pub acks : Acknowledges l.rx su

control_lem :
    (l : Mtp2Link) (i : StatusIndication)
    → Sends l l (Outbound.lssu i l) × Sends l l (Build.fisu (header_for_control l))
unfolding Outbound.lssu Build.lssu Build.fisu header_for_control
control_lem l i = (
  record { tx = Polls.nothing refl refl; rx = refl; events = refl; acks = inl refl },
  record { tx = Polls.nothing refl refl; rx = refl; events = refl; acks = inr refl },
)

-- A frame of the transmit side, in a unit: an MSU that is too large gives way to a FISU.
or_fisu_lem :
    (h : SuHeader) (sio : ℕ) (sif : List ℕ)
    → (frame_su h (TxBody.msu sio sif) ≡ fisu h) ⊎ (frame_su h (TxBody.msu sio sif) ≡ msu h sio sif)
unfolding frame_su or_fisu Build.msu Build.fisu
or_fisu_lem h sio sif = ground arith

carried :
    (t : TxControl) (r : RxControl) (fsn : ℕ) (fib : Bool) (b : TxBody)
    → (poll t).1 ≡ record { fsn = fsn; fib = fib; body = b }
    → let su = frame_su (frame_header r (record { fsn = fsn; fib = fib; body = b })) b in
      Polls t (poll t).0 su × (ack_of su ≡ (r.last_received, r.bib) ∷ [])
carried t r fsn fib TxBody.fisu e = unfold frame_su Build.fisu in (Polls.empty refl refl, refl)
carried t r fsn fib (TxBody.msu sio sif) e =
    elim (or_fisu_lem (record { bsn = r.last_received; bib = r.bib; fsn = fsn; fib = fib }) sio
      sif) [
        | inl s ↦ (Polls.empty refl (ap frame_of s), ap ack_of s)
        | inr s ↦ (Polls.frame refl (ap frame_of s ∙ ap (λ k. k ∷ []) (sym e)), ap ack_of s)
      ]

abbrev SendsPair : Mtp2Link → Mtp2Link × SignalUnit → Type 0
SendsPair l r = Sends l r.0 r.1

transmit_lem : (l : Mtp2Link) → SendsPair l (transmit_frame l)
unfolding transmit_frame
transmit_lem l =
    let f = (poll l.tx).1 in
    let (polls, acks) = carried l.tx l.rx f.fsn f.fib f.body refl in
    record { tx = polls; rx = refl; events = refl; acks = inr acks }

in_service_lem : (l : Mtp2Link) → SendsPair l (in_service_su l)
unfolding in_service_su
in_service_lem l =
    let control = control_lem l StatusIndication.busy in
    if_both (SendsPair l) l.local_busy _ _ control.0 (
      if_both (SendsPair l) (l.remote_processor_outage || l.remote_busy) _ _ control.1
        (transmit_lem l))

guard_t7-events : (l : Mtp2Link) → (guard_t7 l).events ≡ l.events
unfolding guard_t7
guard_t7-events l = ground arith

-- The same of what may be nothing.
abbrev SendsAny : Mtp2Link → Mtp2Link × Option SignalUnit → Type 0
SendsAny l r = (su : SignalUnit) → r.1 ≡ some su → Sends l r.0 su

finish_lem :
    (l : Mtp2Link) (r : Mtp2Link × SignalUnit) → SendsPair l r → SendsAny l (finish l (some r))
unfolding finish
finish_lem l (l', su) s su' e =
    let (tx, rx) = guard_t7-Same l' in
    subst (Sends l (guard_t7 l')) (some-injective _ _ e) (record {
      tx = subst (λ t. Polls l.tx t su) (sym tx) s.tx;
      rx = rx ∙ s.rx;
      events = guard_t7-events l' ∙ s.events;
      acks = s.acks;
    })

choose_lem : (l : Mtp2Link) (st : Mtp2State) → SendsAny l (finish l (choose st l))
unfolding choose
choose_lem l Mtp2State.out_of_service =
    if_both (λ o. SendsAny l (finish l o)) l.active _ _
      (finish_lem l _ (control_lem l StatusIndication.out_of_service).0)
      (unfold finish in λ su e. absurd (none-ne-some su e))
choose_lem l Mtp2State.not_aligned =
    finish_lem l _ (control_lem l StatusIndication.out_of_alignment).0
choose_lem l Mtp2State.aligned = finish_lem l _ (control_lem l _).0
choose_lem l Mtp2State.proving = finish_lem l _ (control_lem l _).0
choose_lem l Mtp2State.aligned_not_ready =
    finish_lem l _ (control_lem l StatusIndication.processor_outage).0
choose_lem l Mtp2State.processor_outage =
    finish_lem l _ (control_lem l StatusIndication.processor_outage).0
choose_lem l Mtp2State.aligned_ready = finish_lem l _ (control_lem l StatusIndication.busy).1
choose_lem l Mtp2State.in_service = finish_lem l _ (in_service_lem l)

pub poll_transmit-Sends :
    (l l' : Mtp2Link) (su : SignalUnit) → poll_transmit l ≡ (l', some su) → Sends l l' su
unfolding poll_transmit
poll_transmit-Sends l l' su e =
    subst (λ k. Sends l k su) (ap (λ k. k.0) e) (choose_lem l l.state su (ap (λ k. k.1) e))
