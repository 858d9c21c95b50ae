-- ===== src/Duplex/Belated.antt =====
-- src/retransmission.rs: an acknowledgement that comes only after the receive side has taken a frame.
use mtp.Base.{
  ℕ, ◌≡◌, refl, sym, ◌∙◌, ap, arith, List, [], ◌∷◌, ◌++◌, none, take, drop, inl, inr, subst,
}
use mtp.Retransmission.Seq.{seq_add, seq_forward}
use mtp.Retransmission.Tx.{BufferedMsu, TxControl, TxFrame, poll, on_ack, acknowledge, free, nack}
use mtp.Retransmission.Rx.{RxControl, on_msu}
use mtp.Retransmission.Channel.{delivered_by}
use mtp.Duplex.Pairing.{
  IsPaired, taking, taking_msus, poll-idle, poll-next, acked-IsPaired, next_taken,
}

-- The transmit side once all that the receive side has taken is acknowledged.
abbrev pub settled : RxControl → TxControl → TxControl
settled r t = on_ack r.last_received r.bib t

module _ (t : TxControl) (r : RxControl) (p : IsPaired t r) where
  -- The new MSU and the last one, if it was outstanding, are acknowledged together.
  both_acked :
      (sio : ℕ) (sif : List ℕ) (rest : List (ℕ × List ℕ))
      → let n = seq_add t.last_fsn 1 in
        let m : BufferedMsu = record { fsn = n; sio = sio; sif = sif } in
        let u =
          on_ack n r.bib
            (record t { last_fsn = n; pending = rest; unacked = t.unacked ++ (m ∷ []) }) in
        (u.method ≡ t.method)
        × (u.basic_cursor ≡ none)
        × (u.unacked ≡ [])
        × (u.last_fsn ≡ n)
        × (u.fib ≡ t.fib)
        × (u.pending ≡ rest)
  unfolding on_ack acknowledge free nack seq_forward seq_add
  both_acked sio sif rest = elim p.outstanding [
    | inl e ↦ ground (arith, p.meets, p.small, p.bits, p.cursor)
    | inr (m, e, n) ↦ ground (arith, p.meets, p.small, p.bits, p.cursor)
  ]

  abbrev Settles : List (ℕ × List ℕ) → TxControl × TxFrame → Type 0
  Settles q s =
      let r' = taking s.1.fsn s.1.body r in
      IsPaired (settled r' s.0) r'
      × ((settled r' s.0).pending ≡ drop 1 q)
      × (taking_msus s.1.fsn s.1.body r ≡ take 1 q)

  pub settled_lem : (q : List (ℕ × List ℕ)) → t.pending ≡ q → Settles q (poll t)
  settled_lem [] e =
      subst (Settles []) (sym (poll-idle t r p e))
        (let (paired, pending) = acked-IsPaired t r p in (paired, pending ∙ e, refl))
  settled_lem ((sio, sif) ∷ rest) e =
      subst (Settles ((sio, sif) ∷ rest)) (sym (poll-next t r p sio sif rest e)) (
        let (small, told, received, bib) = next_taken t r p sio sif in
        let n = seq_add t.last_fsn 1 in
        let m : BufferedMsu = record { fsn = n; sio = sio; sif = sif } in
        let s = record t { last_fsn = n; pending = rest; unacked = t.unacked ++ (m ∷ []) } in
        let r' = (on_msu n sio sif r).0 in
        let (method, cursor, unacked, last, fib, pending) = both_acked sio sif rest in
        let same : settled r' s ≡ on_ack n r.bib s = rw received (rw bib refl) in
        (
          subst (λ u. IsPaired u r') (sym same)
              (record {
                method = method ∙ p.method;
                cursor = cursor;
                outstanding = inl unacked;
                meets = received ∙ sym last;
                small = rw last small;
                bits = bib ∙ p.bits ∙ sym fib;
              }),
          ap (λ u. u.pending) same ∙ pending,
          ap (λ o. delivered_by o []) told,
        ))
