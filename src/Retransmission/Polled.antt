-- ===== src/Retransmission/Polled.antt =====
-- src/retransmission.rs: what `TxControl::poll` can do, under either method.
use mtp.Base.{
  ℕ, ◌≡◌, refl, arith, Bool-cases, Option, none, some, List, [], ◌∷◌, ◌++◌, inl, inr, get_elem?,
}
use mtp.Retransmission.Seq.{seq_add}
use mtp.Retransmission.Method.{RetransmissionMethod, PcrParams, basic, pcr}
use mtp.Retransmission.Tx.{
  BufferedMsu, TxFrame, TxControl, fill, resend, send_new, basic_fresh, basic_resend, basic_from,
  poll_basic, sweep_at, pcr_sweep, pcr_fresh, forced, poll_pcr, poll_by, poll,
}

-- What every poll leaves alone.
pub record Keeps (t t' : TxControl) : Type 0 where
  pub method : t'.method ≡ t.method
  pub fib : t'.fib ≡ t.fib
  pub last_acked : t'.last_acked ≡ t.last_acked

-- What a poll that assigns no number leaves alone too.
pub record Holds (t t' : TxControl) : Type 0 where
  pub keeps : Keeps t t'
  pub unacked : t'.unacked ≡ t.unacked
  pub pending : t'.pending ≡ t.pending
  pub last_fsn : t'.last_fsn ≡ t.last_fsn

-- The MSU that gets the next number.
abbrev pub next_msu : TxControl → ℕ → List ℕ → BufferedMsu
next_msu t sio sif = record { fsn = seq_add t.last_fsn 1; sio = sio; sif = sif }

-- A new MSU is numbered, buffered and taken off the pending queue.
pub record Assigns (t t' : TxControl) (sio : ℕ) (sif : List ℕ) : Type 0 where
  pub keeps : Keeps t t'
  pub unacked : t'.unacked ≡ t.unacked ++ (next_msu t sio sif ∷ [])
  pub pending : t.pending ≡ (sio, sif) ∷ t'.pending
  pub last_fsn : t'.last_fsn ≡ seq_add t.last_fsn 1

-- A poll fills the link, sends an MSU of the buffer again, or sends a new one.
pub data Polled (t t' : TxControl) (f : TxFrame) : Type 0 where
  idle : f ≡ fill t → Holds t t' → Polled t t' f
  again :
      (i : ℕ) (m : BufferedMsu)
      → get_elem? t.unacked i ≡ some m
      → f ≡ resend t.fib m
      → Holds t t'
      → Polled t t' f
  fresh :
      (sio : ℕ) (sif : List ℕ)
      → f ≡ resend t.fib (next_msu t sio sif)
      → Assigns t t' sio sif
      → Polled t t' f

basic_fresh-Polled :
    (p : List (ℕ × List ℕ)) (t : TxControl) (c : Option ℕ)
    → t.pending ≡ p
    → let r = basic_fresh p (record t { basic_cursor = c }) in Polled t r.0 r.1
unfolding basic_fresh send_new
basic_fresh-Polled [] t c e = idle refl (ground arith)
basic_fresh-Polled ((sio, sif) ∷ rest) t c e = fresh sio sif refl (ground arith)

basic_resend-Polled :
    (c : ℕ) (o : Option BufferedMsu) (t : TxControl)
    → get_elem? t.unacked c ≡ o
    → let r = basic_resend c o t in Polled t r.0 r.1
unfolding basic_resend
basic_resend-Polled c none t e = basic_fresh-Polled t.pending t none refl
basic_resend-Polled c (some m) t e = again c m e refl (ground arith)

basic_from-Polled :
    (c : Option ℕ) (t : TxControl) → t.basic_cursor ≡ c → let r = basic_from c t in Polled t r.0 r.1
unfolding basic_from
basic_from-Polled none t e = basic_fresh-Polled t.pending t t.basic_cursor refl
basic_from-Polled (some c) t e = basic_resend-Polled c _ t refl

sweep_at-Polled :
    (c : ℕ) (o : Option BufferedMsu) (t : TxControl)
    → get_elem? t.unacked c ≡ o
    → let r = sweep_at c o t in Polled t r.0 r.1
unfolding sweep_at
sweep_at-Polled c none t e = idle refl (ground arith)
sweep_at-Polled c (some m) t e = again c m e refl (ground arith)

pcr_sweep-Polled :
    (xs : List BufferedMsu) (t : TxControl)
    → t.unacked ≡ xs
    → let r = pcr_sweep xs t in Polled t r.0 r.1
unfolding pcr_sweep
pcr_sweep-Polled [] t e = idle refl (ground arith)
pcr_sweep-Polled (m ∷ ms) t e = sweep_at-Polled _ _ t (rw e)

pcr_fresh-Polled :
    (p : List (ℕ × List ℕ)) (t : TxControl)
    → t.pending ≡ p
    → let r = pcr_fresh p t in Polled t r.0 r.1
unfolding pcr_fresh send_new
pcr_fresh-Polled [] t e = pcr_sweep-Polled t.unacked t refl
pcr_fresh-Polled ((sio, sif) ∷ rest) t e = fresh sio sif refl (ground arith)

poll_pcr-Polled :
    (params : PcrParams) (t : TxControl) → let r = poll_pcr params t in Polled t r.0 r.1
unfolding poll_pcr
poll_pcr-Polled params t = elim (Bool-cases (forced params t)) [
  | inl e ↦ rw e (pcr_sweep-Polled t.unacked t refl)
  | inr e ↦ rw e (pcr_fresh-Polled t.pending t refl)
]

poll_by-Polled :
    (m : RetransmissionMethod) (t : TxControl) → let r = poll_by m t in Polled t r.0 r.1
unfolding poll_by poll_basic
poll_by-Polled basic t = basic_from-Polled t.basic_cursor t refl
poll_by-Polled (pcr params) t = poll_pcr-Polled params t

pub poll-Polled : (t : TxControl) → Polled t (poll t).0 (poll t).1
unfolding poll
poll-Polled t = poll_by-Polled t.method t
