-- ===== src/Duplex/Pairing.antt =====
-- src/retransmission.rs: a transmit side under the Basic method, and a receive side that has
-- received all that it has sent.
use mtp.Base.{
  ℕ, ◌<◌, ◌≡◌, refl, sym, ◌∙◌, ap, arith, List, [], ◌∷◌, ◌++◌, none, take, drop, ◌⊎◌, inl, inr,
  subst,
}
use mtp.Retransmission.Seq.{seq_add, seq_forward}
use mtp.Retransmission.Method.{basic}
use mtp.Retransmission.Tx.{
  BufferedMsu, TxControl, TxBody, TxFrame, poll, poll_by, poll_basic, basic_from, basic_fresh,
  send_new, on_ack, acknowledge, free, nack,
}
use mtp.Retransmission.Rx.{RxControl, accepted, on_msu}
use mtp.Retransmission.Channel.{delivered_by}

-- At most the last MSU awaits its acknowledgement.
abbrev pub IsLast : TxControl → Type 0
IsLast t = (t.unacked ≡ []) ⊎ ((m : BufferedMsu) × (t.unacked ≡ m ∷ []) × (m.fsn ≡ t.last_fsn))

pub record IsPaired (t : TxControl) (r : RxControl) : Type 0 where
  pub method : t.method ≡ basic
  pub cursor : t.basic_cursor ≡ none
  pub outstanding : IsLast t
  pub meets : r.last_received ≡ t.last_fsn
  pub small : t.last_fsn < 128
  pub bits : r.bib ≡ t.fib

-- The receive side takes a frame.
abbrev pub taking : ℕ → TxBody → RxControl → RxControl
taking fsn TxBody.fisu r = r
taking fsn (TxBody.msu sio sif) r = (on_msu fsn sio sif r).0

abbrev pub taking_msus : ℕ → TxBody → RxControl → List (ℕ × List ℕ)
taking_msus fsn TxBody.fisu r = []
taking_msus fsn (TxBody.msu sio sif) r = delivered_by (on_msu fsn sio sif r).1 []

-- A side polls, the other takes the frame, and the acknowledgement that the other had sent comes in.
module _ (t : TxControl) (r : RxControl) (p : IsPaired t r) where
  pub poll-idle :
      t.pending ≡ [] → poll t ≡ (t, record { fsn = t.last_fsn; fib = t.fib; body = TxBody.fisu })
  unfolding poll poll_by poll_basic basic_from basic_fresh
  poll-idle e = ground (arith, p.method, p.cursor)

  pub poll-next :
      (sio : ℕ) (sif : List ℕ) (rest : List (ℕ × List ℕ))
      → t.pending ≡ (sio, sif) ∷ rest
      → let n = seq_add t.last_fsn 1 in
        let m : BufferedMsu = record { fsn = n; sio = sio; sif = sif } in
        poll t ≡ (
          record t { last_fsn = n; pending = rest; unacked = t.unacked ++ (m ∷ []) },
          record { fsn = n; fib = t.fib; body = TxBody.msu sio sif },
        )
  unfolding poll poll_by poll_basic basic_from basic_fresh send_new
  poll-next sio sif rest e = ground (arith, p.method, p.cursor)

  -- An acknowledgement of the last MSU empties the buffer.
  acked_lem : on_ack r.last_received r.bib t ≡ record t {
    unacked = [];
    last_acked = (on_ack r.last_received r.bib t).last_acked;
    pcr_cursor = (on_ack r.last_received r.bib t).pcr_cursor;
  }
  unfolding on_ack acknowledge free nack seq_forward
  acked_lem = elim p.outstanding [
    | inl e ↦ ground (arith, p.meets, p.small, p.bits, p.cursor)
    | inr (m, e, n) ↦ ground (arith, p.meets, p.small, p.bits, p.cursor)
  ]

  pub acked-IsPaired :
      IsPaired (on_ack r.last_received r.bib t) r
      × ((on_ack r.last_received r.bib t).pending ≡ t.pending)
  acked-IsPaired =
      let a = acked_lem in
      (
        record {
          method = ap (λ k. k.method) a ∙ p.method;
          cursor = ap (λ k. k.basic_cursor) a ∙ p.cursor;
          outstanding = inl (ap (λ k. k.unacked) a);
          meets = p.meets ∙ sym (ap (λ k. k.last_fsn) a);
          small = rw a p.small;
          bits = p.bits ∙ sym (ap (λ k. k.fib) a);
        },
        ap (λ k. k.pending) a,
      )

  -- An MSU sent for the first time stays in the buffer alone.
  next_acked :
      (sio : ℕ) (sif : List ℕ) (rest : List (ℕ × List ℕ))
      → let n = seq_add t.last_fsn 1 in
        let m : BufferedMsu = record { fsn = n; sio = sio; sif = sif } in
        let u =
          on_ack r.last_received r.bib
            (record t { last_fsn = n; pending = rest; unacked = t.unacked ++ (m ∷ []) }) in
        (u.method ≡ t.method)
        × (u.basic_cursor ≡ none)
        × (u.unacked ≡ m ∷ [])
        × (u.last_fsn ≡ n)
        × (u.fib ≡ t.fib)
        × (u.pending ≡ rest)
  unfolding on_ack acknowledge free nack seq_forward seq_add
  next_acked sio sif rest = elim p.outstanding [
    | inl e ↦ ground (arith, p.meets, p.small, p.bits, p.cursor)
    | inr (m, e, n) ↦ ground (arith, p.meets, p.small, p.bits, p.cursor)
  ]

  pub next_taken :
      (sio : ℕ) (sif : List ℕ)
      → let n = seq_add t.last_fsn 1 in
        (n < 128)
        × ((on_msu n sio sif r).1 ≡ accepted sio sif)
        × ((on_msu n sio sif r).0.last_received ≡ n)
        × ((on_msu n sio sif r).0.bib ≡ r.bib)
  unfolding on_msu seq_forward seq_add
  next_taken sio sif = ground (arith, p.meets, p.small)

  -- What is so after a poll with the result `s`, where `q` was pending.
  abbrev Meets : List (ℕ × List ℕ) → TxControl × TxFrame → Type 0
  Meets q s =
      IsPaired (on_ack r.last_received r.bib s.0) (taking s.1.fsn s.1.body r)
      × ((on_ack r.last_received r.bib s.0).pending ≡ drop 1 q)
      × (taking_msus s.1.fsn s.1.body r ≡ take 1 q)

  pub paired_lem : (q : List (ℕ × List ℕ)) → t.pending ≡ q → Meets q (poll t)
  paired_lem [] e =
      subst (Meets []) (sym (poll-idle e))
        (let (paired, pending) = acked-IsPaired in (paired, pending ∙ e, refl))
  paired_lem ((sio, sif) ∷ rest) e =
      subst (Meets ((sio, sif) ∷ rest)) (sym (poll-next sio sif rest e)) (
        let (method, cursor, unacked, last, fib, pending) = next_acked sio sif rest in
        let (small, told, received, bib) = next_taken sio sif in
        let m : BufferedMsu = record { fsn = seq_add t.last_fsn 1; sio = sio; sif = sif } in
        (
          record {
            method = method ∙ p.method;
            cursor = cursor;
            outstanding = inr (m, unacked, sym last);
            meets = received ∙ sym last;
            small = rw last small;
            bits = bib ∙ p.bits ∙ sym fib;
          },
          pending,
          ap (λ o. delivered_by o []) told,
        ))
