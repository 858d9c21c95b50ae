-- ===== src/Retransmission/Cycle.antt =====
-- src/retransmission.rs: Preventive Cyclic Retransmission.
use mtp.Base.{
  ℕ, zero, suc, ◌+◌, ◌≤◌, ◌<◌, ◌≡◌, refl, sym, ◌∙◌, ap, arith, true, false, ◌||◌, List, [], ◌∷◌,
  ◌++◌, length, length-append, map, get_elem?, drop, drop-cons, leb, ◌==◌, some, none, Option, ◌⊎◌,
  Bool-cases, inl, inr, if◌then◌else◌, take, take-append-drop, length-drop, append-nil, ap₂,
  map-append,
}
use mtp.Retransmission.Method.{PcrParams, pcr}
use mtp.Retransmission.Tx.{
  BufferedMsu, TxControl, TxFrame, unacked_len, resend, send_new, poll, poll_by, poll_pcr,
  pcr_sweep, pcr_fresh, sweep_at, forced,
}
use mtp.Retransmission.Recovery.{polls}

sweep_at-unacked :
    (c : ℕ) (o : Option BufferedMsu) (t : TxControl) → (sweep_at c o t).0.unacked ≡ t.unacked
unfolding sweep_at
sweep_at-unacked c none t = refl
sweep_at-unacked c (some m) t = refl

pcr_sweep-unacked : (xs : List BufferedMsu) (t : TxControl) → (pcr_sweep xs t).0.unacked ≡ t.unacked
unfolding pcr_sweep
pcr_sweep-unacked [] t = refl
pcr_sweep-unacked (m ∷ ms) t = sweep_at-unacked _ _ t

length-pcr_fresh :
    (p : List (ℕ × List ℕ)) (t : TxControl) → unacked_len (pcr_fresh p t).0 ≤ unacked_len t + 1
unfolding pcr_fresh send_new
length-pcr_fresh [] t = omega (arith, ap length (pcr_sweep-unacked t.unacked t))
length-pcr_fresh ((sio, sif) ∷ rest) t = omega (arith, length-append t.unacked)

length-poll_pcr :
    (t : TxControl) (params : PcrParams) (n : ℕ)
    → params.n1 ≤ n
    → unacked_len t ≤ n
    → unacked_len (poll_pcr params t).0 ≤ n
unfolding poll_pcr
length-poll_pcr t params n small h = elim (Bool-cases (forced params t)) [
  | inl e ↦ rw e (rw (pcr_sweep-unacked t.unacked t) h)
  | inr e ↦ rw e (omega (arith, length-pcr_fresh t.pending t, below e))
]
  where
    below : forced params t ≡ false → unacked_len t < params.n1
    below e = unfold forced in ground arith

poll-pcr : (t : TxControl) (params : PcrParams) → t.method ≡ pcr params → poll t ≡ poll_pcr params t
unfolding poll poll_by
poll-pcr t params e = ap (λ m. poll_by m t) e

-- Under PCR a poll never lets the buffer grow beyond a bound that is not below the threshold N1
-- and that the buffer has kept so far.
pub length-poll :
    (t : TxControl) (params : PcrParams) (n : ℕ)
    → t.method ≡ pcr params
    → params.n1 ≤ n
    → unacked_len t ≤ n
    → unacked_len (poll t).0 ≤ n
length-poll t params n e small h =
    rw (ap (λ r. unacked_len r.0) (poll-pcr t params e)) (length-poll_pcr t params n small h)

-- Nothing new may be sent: none is waiting, or a threshold has been reached.
abbrev pub IsHeld : PcrParams → TxControl → Type 0
IsHeld params t = (forced params t || (length t.pending == 0)) ≡ true

pcr_fresh-empty :
    (p : List (ℕ × List ℕ)) (t : TxControl)
    → (length p == 0) ≡ true
    → pcr_fresh p t ≡ pcr_sweep t.unacked t
unfolding pcr_fresh
pcr_fresh-empty [] t h = refl
pcr_fresh-empty (x ∷ p) t h = ground arith

-- Then a poll sweeps the buffer.
held-sweeps :
    (t : TxControl) (params : PcrParams)
    → t.method ≡ pcr params
    → IsHeld params t
    → poll t ≡ pcr_sweep t.unacked t
held-sweeps t params e h = poll-pcr t params e ∙ by_test
  where
    by_test : poll_pcr params t ≡ pcr_sweep t.unacked t
    by_test =
        unfold poll_pcr in
        elim (Bool-cases (forced params t)) [
          | inl f ↦ rw f
          | inr f ↦ rw f (pcr_fresh-empty t.pending t (ground arith))
        ]

-- The next MSU of the sweep is the one at index `c`: the cursor stands there, or it has passed the
-- end and the sweep begins anew.
abbrev pub SweepsAt : ℕ → TxControl → Type 0
SweepsAt c t =
    (c < unacked_len t) × (((t.pcr_cursor ≡ c) ⊎ ((c ≡ 0) × (unacked_len t ≤ t.pcr_cursor))))

sweep_lem :
    (xs : List BufferedMsu) (t : TxControl) (c : ℕ) (m : BufferedMsu)
    → t.unacked ≡ xs
    → SweepsAt c t
    → get_elem? xs c ≡ some m
    → pcr_sweep xs t ≡ (record t { pcr_cursor = c + 1 }, resend t.fib m)
unfolding pcr_sweep sweep_at
sweep_lem [] t c m e s at = ground arith
sweep_lem (x ∷ xs) t c m e s at =
    let start : (if leb (length (x ∷ xs)) t.pcr_cursor then 0 else t.pcr_cursor) ≡ c =
      ground (arith, ap length e) in
    ap (λ k. sweep_at k (get_elem? (x ∷ xs) k) t) start ∙ ap (λ o. sweep_at c o t) at

-- One sweep from index `c` on sends what follows it in order, and stops behind it.
record Sweeps (t : TxControl) (c : ℕ) (xs : List BufferedMsu) (r : TxControl × List TxFrame)
    : Type 0 where
  frames : r.1 ≡ map (resend t.fib) xs
  cursor : ℕ
  stops : r.0 ≡ record t { pcr_cursor = cursor }
  behind : (cursor ≡ c + length xs) ⊎ ((length xs ≡ 0) × (cursor ≡ t.pcr_cursor))

polls-Sweeps :
    (xs ys : List BufferedMsu) (t : TxControl) (params : PcrParams) (c : ℕ)
    → t.method ≡ pcr params
    → IsHeld params t
    → drop c t.unacked ≡ xs ++ ys
    → (1 ≤ length xs → SweepsAt c t)
    → Sweeps t c xs (polls (length xs) t)
unfolding polls forced
polls-Sweeps [] ys t params c e h d s = record {
  frames = refl;
  cursor = t.pcr_cursor;
  stops = refl;
  behind = inr (refl, refl);
}
polls-Sweeps (x ∷ xs) ys t params c e h d s =
    let (at, rest, below) = drop-cons c t.unacked d in
    let t' : TxControl = record t { pcr_cursor = c + 1 } in
    let first : poll t ≡ (t', resend t.fib x) =
      held-sweeps t params e h ∙ sweep_lem t.unacked t c x refl (s (omega arith)) at in
    let next : drop (c + 1) t.unacked ≡ xs ++ ys =
      ap (λ k. drop k t.unacked) (let p : c + 1 ≡ suc c = omega arith in p) ∙ rest in
    let more : 1 ≤ length xs → SweepsAt (c + 1) t' = λ k. (
      omega (arith, ap length next, length-drop (c + 1) t.unacked, length-append xs ys),
      inl refl,
    ) in
    let r = polls-Sweeps xs ys t' params (c + 1) e h next more in
    rw first (record {
      frames = ap (λ fs. resend t.fib x ∷ fs) r.frames;
      cursor = r.cursor;
      stops = r.stops;
      behind = inl (omega (arith, r.behind));
    })

polls_add :
    (m n : ℕ) (t : TxControl) → (polls (m + n) t).1 ≡ (polls m t).1 ++ (polls n (polls m t).0).1
unfolding polls
polls_add zero n t = let p : 0 + n ≡ n = omega arith in rw p
polls_add (suc m) n t =
    let p : suc m + n ≡ suc (m + n) = omega arith in
    rw p (ap (λ fs. (poll t).1 ∷ fs) (polls_add m n (poll t).0))

-- Under PCR, while nothing new may be sent, as many polls as there are MSUs in the buffer send
-- each of them once: from the next MSU of the sweep to the end, then from the beginning to it.
pub polls-cycle :
    (t : TxControl) (params : PcrParams) (c : ℕ)
    → t.method ≡ pcr params
    → IsHeld params t
    → SweepsAt c t
    → (polls (unacked_len t) t).1 ≡ map (resend t.fib) (drop c t.unacked ++ take c t.unacked)
unfolding forced
polls-cycle t params c e h s =
    let u = t.unacked in
    let a = drop c u in
    let b = take c u in
    let size : length a + length b ≡ length u =
      omega (arith, ap length (take-append-drop c u), length-append b a) in
    let r = polls-Sweeps a [] t params c e h (sym (append-nil a)) (λ _. s) in
    let t' : TxControl = record t { pcr_cursor = r.cursor } in
    let again : SweepsAt 0 t' =
      (omega (arith, s.0), inr (refl, omega (arith, r.behind, s.0, length-drop c u))) in
    let r' = polls-Sweeps b a t' params 0 e h (sym (take-append-drop c u)) (λ _. again) in
    ap (λ n. (polls n t).1) (sym size)
    ∙ polls_add (length a) (length b) t
    ∙ ap (λ k. (polls (length a) t).1 ++ (polls (length b) k).1) r.stops
    ∙ ap₂ ◌++◌ r.frames r'.frames
    ∙ sym (map-append (resend t.fib) a b)
