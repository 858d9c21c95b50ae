-- ===== src/Retransmission/Recovery.antt =====
-- src/retransmission.rs: how a lost MSU is made up for.
use mtp.Base.{
  ℕ, zero, suc, ◌+◌, ◌-◌, ◌%◌, ◌≤◌, ◌<◌, ◌≡◌, ◌≢◌, refl, ◌∙◌, ap, arith, Bool, false, some, List,
  [], ◌∷◌, length, map, get_elem?, drop, drop-cons, length-drop,
}
use mtp.Retransmission.Method.{basic}
use mtp.Retransmission.Tx.{
  BufferedMsu, TxControl, TxFrame, TxBody, unacked_len, resend, on_ack, poll, poll_by, poll_basic,
}
use mtp.Retransmission.Rx.{RxControl, RxOutcome, accepted, discarded, on_msu}
use mtp.Retransmission.Numbering.{IsNumbered, IsNumbered-drop, before, seq_forward-next, free-drop}

-- A number of polls, and the frames that they send.
unfoldable pub polls : ℕ → TxControl → TxControl × List TxFrame
polls zero t = (t, [])
polls (suc n) t = let (t', f) = poll t in let (t'', fs) = polls n t' in (t'', f ∷ fs)

-- The frames arrive one after the other.
receive_body : ℕ → TxBody → RxControl → RxControl × RxOutcome
receive_body fsn TxBody.fisu r = (r, discarded)
receive_body fsn (TxBody.msu sio sif) r = on_msu fsn sio sif r

pub receive_all : List TxFrame → RxControl → RxControl × List RxOutcome
unfolding receive_body
receive_all [] r = (r, [])
receive_all (f ∷ fs) r =
    let (r', o) = receive_body f.fsn f.body r in let (r'', os) = receive_all fs r' in (r'', o ∷ os)

abbrev pub accepted_msu : BufferedMsu → RxOutcome
accepted_msu m = accepted m.sio m.sif

poll_at :
    (t : TxControl) (c : ℕ) (m : BufferedMsu)
    → t.method ≡ basic
    → t.basic_cursor ≡ some c
    → get_elem? t.unacked c ≡ some m
    → poll t ≡ (record t { basic_cursor = some (c + 1) }, resend t.fib m)
unfolding poll poll_by poll_basic
poll_at t c m e cur at = ground arith

polls-resend :
    (xs : List BufferedMsu) (t : TxControl) (c : ℕ)
    → t.method ≡ basic
    → t.basic_cursor ≡ some c
    → drop c t.unacked ≡ xs
    → (polls (length xs) t).1 ≡ map (resend t.fib) xs
unfolding polls
polls-resend [] t c e cur d = refl
polls-resend (x ∷ xs) t c e cur d =
    let (at, rest, _) = drop-cons c t.unacked d in
    let next : drop (c + 1) t.unacked ≡ xs =
      ap (λ k. drop k t.unacked) (let p : c + 1 ≡ suc c = omega arith in p) ∙ rest in
    rw (poll_at t c x e cur at) (
      ap (λ fs. resend t.fib x ∷ fs)
        (polls-resend xs (record t { basic_cursor = some (c + 1) }) (c + 1) e refl next))

nacked :
    (t : TxControl) (base k : ℕ) (bib : Bool)
    → t.method ≡ basic
    → IsNumbered base t.unacked
    → k < unacked_len t
    → k ≤ 64
    → bib ≢ t.fib
    → let t' = on_ack (before (base + k)) bib t in
      (t'.unacked ≡ drop k t.unacked)
      × (t'.fib ≡ bib)
      × (t'.method ≡ basic)
      × (t'.basic_cursor ≡ some 0)
unfolding on_ack
nacked t base k bib e v fits small ne = ground (
  arith,
  free-drop k base (base + k) t.unacked refl v (omega arith) small,
  length-drop k t.unacked,
)

-- A negative acknowledgement under the Basic method, which acknowledges the first `k` MSUs, at
-- most 64 and not all, of a buffer numbered in sequence, makes the next polls send all the others
-- again, in order and under the new indicator bit.
pub nack-resends :
    (t : TxControl) (base k : ℕ) (bib : Bool)
    → t.method ≡ basic
    → IsNumbered base t.unacked
    → k < unacked_len t
    → k ≤ 64
    → bib ≢ t.fib
    → (polls (unacked_len t - k) (on_ack (before (base + k)) bib t)).1
      ≡ map (resend bib) (drop k t.unacked)
nack-resends t base k bib e v fits small ne =
    let (left, fib, method, cursor) = nacked t base k bib e v fits small ne in
    rw (← length-drop k t.unacked) (
      polls-resend (drop k t.unacked) (on_ack (before (base + k)) bib t) 0 method cursor left
      ∙ rw fib)

on_msu_next :
    (a fsn sio : ℕ) (sif : List ℕ) (r : RxControl)
    → fsn ≡ a % 128
    → r.last_received ≡ before a
    → on_msu fsn sio sif r
      ≡ (record r { last_received = fsn; nack_pending = false }, accepted sio sif)
unfolding on_msu
on_msu_next a fsn sio sif r e l = ground (arith, seq_forward-next a)

accepts_all :
    (fib : Bool) (xs : List BufferedMsu) (a : ℕ) (r : RxControl)
    → IsNumbered a xs
    → r.last_received ≡ before a
    → (receive_all (map (resend fib) xs) r).1 ≡ map accepted_msu xs
unfolding receive_all
accepts_all fib [] a r v e = refl
accepts_all fib (x ∷ xs) a r v e =
    let r' : RxControl = record r { last_received = x.fsn; nack_pending = false } in
    rw (on_msu_next a x.fsn x.sio x.sif r v.0 e)
      (ap (λ os. accepted_msu x ∷ os) (accepts_all fib xs (suc a) r' v.1 (omega (arith, v.0))))

-- One negative acknowledgement recovers a loss under the Basic method: when the receive side,
-- which has just the first `k` MSUs, at most 64 and not all, of a buffer numbered in sequence,
-- sends its BSN and a BIB that differs from the FIB, the next polls of the transmit side send
-- frames that the receive side accepts one and all, and they are the rest of the buffer.
pub nack-recovers :
    (t : TxControl) (r : RxControl) (base k : ℕ)
    → t.method ≡ basic
    → IsNumbered base t.unacked
    → k < unacked_len t
    → k ≤ 64
    → r.last_received ≡ before (base + k)
    → r.bib ≢ t.fib
    → let sends = (polls (unacked_len t - k) (on_ack r.last_received r.bib t)).1 in
      (receive_all sends r).1 ≡ map accepted_msu (drop k t.unacked)
nack-recovers t r base k e v fits small at ne =
    ap (λ b. (receive_all (polls (unacked_len t - k) (on_ack b r.bib t)).1 r).1) at
    ∙ ap (λ fs. (receive_all fs r).1) (nack-resends t base k r.bib e v fits small ne)
    ∙ accepts_all r.bib (drop k t.unacked) (base + k) r
        (IsNumbered-drop k base (base + k) t.unacked refl v) at
