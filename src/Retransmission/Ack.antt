-- ===== src/Retransmission/Ack.antt =====
-- src/retransmission.rs: what `TxControl::on_ack` does to the buffer and to the retransmission
-- cursor.
use mtp.Base.{
  ℕ, ◌+◌, ◌-◌, ◌≤◌, ◌<◌, ◌≡◌, refl, arith, Bool, some, get_elem?, get_elem?-drop, drop, ltb,
}
use mtp.Retransmission.Method.{basic}
use mtp.Retransmission.Tx.{
  BufferedMsu, TxControl, unacked_len, resend, free, on_ack, poll, poll_by, poll_basic,
}
use mtp.Retransmission.Numbering.{IsNumbered, before, free-drop, free_stalls}

-- The acknowledgement of the first `k` MSUs of a numbered buffer.
module _ (t : TxControl) (base k : ℕ) (v : IsNumbered base t.unacked)
    (fits : k ≤ unacked_len t) where
  freed : (b : ℕ) → b ≡ base + k → k ≤ 64 → free (before b) t.unacked ≡ (drop k t.unacked, ltb 0 k)
  freed b e small = free-drop k base b t.unacked e v fits small

  -- The acknowledgement of the first `k` MSUs of a buffer numbered in sequence, up to 64 of them,
  -- frees just those, whatever the BIB.
  pub on_ack-drop :
      (bib : Bool) → k ≤ 64 → (on_ack (before (base + k)) bib t).unacked ≡ drop k t.unacked
  unfolding on_ack
  on_ack-drop bib small = ground (arith, freed (base + k) refl small)

  -- The acknowledgement of the first `k` MSUs of a buffer numbered in sequence, for 65 to 127 of
  -- them at once, frees none, and the last acknowledged number stays as it was.
  pub on_ack_stalls :
      (bib : Bool)
      → 64 < k
      → k < 128
      → let t' = on_ack (before (base + k)) bib t in
        (t'.unacked ≡ t.unacked) × (t'.last_acked ≡ t.last_acked)
  unfolding on_ack
  on_ack_stalls bib far near =
      ground (arith, free_stalls k base (base + k) t.unacked refl v fits far near)

  -- While a Basic retransmission of a buffer numbered in sequence is under way, has sent two MSUs
  -- or more again, and the first `k` MSUs, two to 64, are acknowledged, the cursor moves back by
  -- one only: the next MSU sent again is the one that was at index `k + c - 1`, behind the first
  -- that is neither acknowledged nor sent again, which was at `c` or at `k`.
  pub on_ack_skips :
      (c : ℕ) (m : BufferedMsu)
      → t.method ≡ basic
      → t.basic_cursor ≡ some c
      → 2 ≤ c
      → 2 ≤ k
      → k ≤ 64
      → get_elem? t.unacked (k + (c - 1)) ≡ some m
      → (c < k + (c - 1))
        × (k < k + (c - 1))
        × ((poll (on_ack (before (base + k)) t.fib t)).1 ≡ resend t.fib m)
  unfolding on_ack poll poll_by poll_basic
  on_ack_skips c m e cur past pos small at =
      let next : (poll (on_ack (before (base + k)) t.fib t)).1 ≡ resend t.fib m =
        ground (arith, freed (base + k) refl small, get_elem?-drop k (c - 1) t.unacked) in
      (omega arith, omega arith, next)
