-- ===== src/Link/Wire/Frames.antt =====
-- src/retransmission.rs: the frames of a transmit side fit the wire format.
use mtp.Base.{
  ℕ, zero, suc, ◌<◌, ◌≡◌, sym, ap, arith, Bool, List, [], ◌∷◌, ◌++◌, Option, none, some, get_elem?,
  All, inl, inr, subst, ltb, Bool-cases,
}
use mtp.SignalUnit.Header.{seq_modulus}
use mtp.Retransmission.Seq.{seq_half, seq_add, seq_forward}
use mtp.Retransmission.Method.{RetransmissionMethod}
use mtp.Retransmission.Tx.{
  BufferedMsu, TxFrame, TxControl, new, submit, poll, free, acknowledge, nack, on_ack,
}
use mtp.Retransmission.Polled.{Polled, Holds, poll-Polled}
use mtp.Link.Wire.{Fits, IsBuffered, IsPending, IsWireTx, IsWireFrame}

-- The value of an option, or another.
abbrev get_or {ℓ} : {A : Type ℓ} → A → Option A → A
get_or a none = a
get_or a (some b) = b

All-append {ℓ κ} :
    {A : Type ℓ} (P : A → Type κ) (xs : List A) {y : A} → All P xs → P y → All P (xs ++ (y ∷ []))
All-append P [] v p = (p, tt)
All-append P (x ∷ xs) v p = (v.0, All-append P xs v.1 p)

All-get_elem? {ℓ κ} :
    {A : Type ℓ} (P : A → Type κ) (xs : List A) (n : ℕ) {y : A}
    → All P xs
    → get_elem? xs n ≡ some y
    → P y
All-get_elem? P [] n v e = ground arith
All-get_elem? P (x ∷ xs) zero v e = subst P (ap (get_or x) e) v.0
All-get_elem? P (x ∷ xs) (suc n) v e = All-get_elem? P xs n v.1 e

pub new-IsWireTx : (m : RetransmissionMethod) → IsWireTx (new m)
unfolding new
new-IsWireTx m = record { last = omega arith; pending = tt; unacked = tt }

pub submit-IsWireTx :
    (sio : ℕ) (sif : List ℕ) (t : TxControl) → Fits sif → IsWireTx t → IsWireTx (submit sio sif t)
unfolding submit
submit-IsWireTx sio sif t f w = record {
  last = w.last;
  pending = All-append _ t.pending w.pending f;
  unacked = w.unacked;
}

seq_add_lem : (a b : ℕ) → seq_add a b < seq_modulus
unfolding seq_add
seq_add_lem a b = omega arith

holds_lem : (t t' : TxControl) → Holds t t' → IsWireTx t → IsWireTx t'
holds_lem t t' h w = record {
  last = rw h.last_fsn w.last;
  pending = rw h.pending w.pending;
  unacked = rw h.unacked w.unacked;
}

-- Whatever is polled fits the wire format.
pub poll-IsWireTx : (t : TxControl) → IsWireTx t → IsWireTx (poll t).0 × IsWireFrame (poll t).1
poll-IsWireTx t w = go (poll t) (poll-Polled t)
  where
    go : (r : TxControl × TxFrame) → Polled t r.0 r.1 → IsWireTx r.0 × IsWireFrame r.1
    go (t', f) (Polled.idle e h) = (holds_lem t t' h w, subst IsWireFrame (sym e) (w.last, tt))
    go (t', f) (Polled.again i m at e h) = (
      holds_lem t t' h w,
      subst IsWireFrame (sym e) (All-get_elem? IsBuffered t.unacked i w.unacked at),
    )
    go (t', f) (Polled.fresh sio sif e a) =
        let p : All IsPending ((sio, sif) ∷ t'.pending) =
          subst (All IsPending) a.pending w.pending in
        (
          record {
            last = rw a.last_fsn (seq_add_lem t.last_fsn 1);
            pending = p.1;
            unacked =
                rw a.unacked (All-append _ t.unacked w.unacked (seq_add_lem t.last_fsn 1, p.0));
          },
          subst IsWireFrame (sym e) (seq_add_lem t.last_fsn 1, p.0),
        )

free-IsBuffered :
    (bsn : ℕ) (ms : List BufferedMsu) → All IsBuffered ms → All IsBuffered (free bsn ms).0
unfolding free
free-IsBuffered bsn [] v = tt
free-IsBuffered bsn (m ∷ ms) v = elim (Bool-cases (ltb (seq_forward bsn m.fsn) seq_half)) [
  | inl e ↦ rw e (free-IsBuffered bsn ms v.1)
  | inr e ↦ rw e v
]

on_ack-fields :
    (bsn : ℕ) (bib : Bool) (t : TxControl)
    → let t' = on_ack bsn bib t in
      (t'.unacked ≡ (free bsn t.unacked).0) × (t'.pending ≡ t.pending) × (t'.last_fsn ≡ t.last_fsn)
unfolding on_ack acknowledge nack
on_ack-fields bsn bib t = ground arith

pub on_ack-IsWireTx :
    (bsn : ℕ) (bib : Bool) (t : TxControl) → IsWireTx t → IsWireTx (on_ack bsn bib t)
on_ack-IsWireTx bsn bib t w =
    let (unacked, pending, last) = on_ack-fields bsn bib t in
    record {
      last = rw last w.last;
      pending = rw pending w.pending;
      unacked = rw unacked (free-IsBuffered bsn t.unacked w.unacked);
    }
