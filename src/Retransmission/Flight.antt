-- ===== src/Retransmission/Flight.antt =====
-- src/retransmission.rs: what is under way between the two sides, against the stream of submitted
-- MSUs. A frame carries the MSU of some position, and its number modulo 128.
use mtp.Base.{
  ℕ, suc, ◌+◌, ◌%◌, ◌≤◌, ◌<◌, ◌≡◌, arith, Bool, some, List, [], ◌∷◌, ◌++◌, get_elem?,
  get_elem?-append, max,
}
use mtp.Retransmission.Tx.{TxFrame, TxBody}
use mtp.Retransmission.Numbering.{before}

-- The frames under way, with `b` positions received when the first arrives and `n` sent: a frame is
-- never 128 positions or more behind what the frames before it can make the receiver expect.
pub data Flight (stream : List (ℕ × List ℕ)) (n : ℕ) : ℕ → List TxFrame → Type 0 where
  done : {b : ℕ} → b ≤ n → Flight stream n b []
  fill :
      {b : ℕ} {f : TxFrame} {fs : List TxFrame}
      → f.body ≡ TxBody.fisu
      → Flight stream n b fs
      → Flight stream n b (f ∷ fs)
  carry :
      {b : ℕ} {f : TxFrame} {fs : List TxFrame} (i sio : ℕ) (sif : List ℕ)
      → f.fsn ≡ i % 128
      → f.body ≡ TxBody.msu sio sif
      → get_elem? stream i ≡ some (sio, sif)
      → i < n
      → b ≤ i + 127
      → Flight stream n (max b (suc i)) fs
      → Flight stream n b (f ∷ fs)

-- The acknowledgements under way, each of a position between `a` and `d`, in order.
pub data Echoes (d : ℕ) : ℕ → List (ℕ × Bool) → Type 0 where
  done : {a : ℕ} → a ≤ d → Echoes d a []
  echo :
      {a : ℕ} {bib : Bool} {bsn : ℕ} {es : List (ℕ × Bool)} (b : ℕ)
      → bsn ≡ before b
      → a ≤ b
      → Echoes d b es
      → Echoes d a ((bsn, bib) ∷ es)

module _ (stream : List (ℕ × List ℕ)) (n : ℕ) where
  pub Flight-lower :
      (c : ℕ) {b : ℕ} {fs : List TxFrame} → c ≤ b → Flight stream n b fs → Flight stream n c fs
  Flight-lower c h (Flight.done k) = Flight.done (omega arith)
  Flight-lower c h (fill e fl) = fill e (Flight-lower c h fl)
  Flight-lower c h (carry i sio sif e body at l k fl) =
      carry i sio sif e body at l (omega arith) (Flight-lower (max c (suc i)) (omega arith) fl)

  pub Flight-le : {b : ℕ} {fs : List TxFrame} → Flight stream n b fs → b ≤ n
  Flight-le (Flight.done k) = k
  Flight-le (fill e fl) = Flight-le fl
  Flight-le (carry i sio sif e body at l k fl) = omega (arith, Flight-le fl)

  pub Flight-stream :
      (more : List (ℕ × List ℕ)) {b : ℕ} {fs : List TxFrame}
      → Flight stream n b fs
      → Flight (stream ++ more) n b fs
  Flight-stream more (Flight.done k) = Flight.done k
  Flight-stream more (fill e fl) = fill e (Flight-stream more fl)
  Flight-stream more (carry i sio sif e body at l k fl) =
      carry i sio sif e body (get_elem?-append stream more i at) l k (Flight-stream more fl)

  pub Flight-raise :
      (n' : ℕ) {b : ℕ} {fs : List TxFrame} → n ≤ n' → Flight stream n b fs → Flight stream n' b fs
  Flight-raise n' h (Flight.done k) = Flight.done (omega arith)
  Flight-raise n' h (fill e fl) = fill e (Flight-raise n' h fl)
  Flight-raise n' h (carry i sio sif e body at l k fl) =
      carry i sio sif e body at (omega arith) k (Flight-raise n' h fl)

  pub Flight-fill :
      (f : TxFrame) {b : ℕ} {fs : List TxFrame}
      → f.body ≡ TxBody.fisu
      → Flight stream n b fs
      → Flight stream n b (fs ++ (f ∷ []))
  Flight-fill f e' (Flight.done k) = fill e' (Flight.done k)
  Flight-fill f e' (fill e fl) = fill e (Flight-fill f e' fl)
  Flight-fill f e' (carry i sio sif e body at l k fl) =
      carry i sio sif e body at l k (Flight-fill f e' fl)

  -- A frame sent now is at most 127 positions behind what has been sent.
  pub Flight-send :
      (f : TxFrame) (j sio' : ℕ) (sif' : List ℕ) {b : ℕ} {fs : List TxFrame}
      → f.fsn ≡ j % 128
      → f.body ≡ TxBody.msu sio' sif'
      → get_elem? stream j ≡ some (sio', sif')
      → j < n
      → n ≤ j + 127
      → Flight stream n b fs
      → Flight stream n b (fs ++ (f ∷ []))
  Flight-send f j sio' sif' e' body' at' l' h (Flight.done k) =
      carry j sio' sif' e' body' at' l' (omega arith) (Flight.done (omega arith))
  Flight-send f j sio' sif' e' body' at' l' h (fill e fl) =
      fill e (Flight-send f j sio' sif' e' body' at' l' h fl)
  Flight-send f j sio' sif' e' body' at' l' h (carry i sio sif e body at l k fl) =
      carry i sio sif e body at l k (Flight-send f j sio' sif' e' body' at' l' h fl)

  pub Flight-lose :
      (xs ys : List TxFrame) (f : TxFrame) {b : ℕ}
      → Flight stream n b (xs ++ (f ∷ ys))
      → Flight stream n b (xs ++ ys)
  Flight-lose [] ys f (fill e fl) = fl
  Flight-lose [] ys f {b} (carry i sio sif e body at l k fl) = Flight-lower b (omega arith) fl
  Flight-lose (x ∷ xs) ys f (fill e fl) = fill e (Flight-lose xs ys f fl)
  Flight-lose (x ∷ xs) ys f (carry i sio sif e body at l k fl) =
      carry i sio sif e body at l k (Flight-lose xs ys f fl)

module _ (d : ℕ) where
  pub Echoes-lower : (c : ℕ) {a : ℕ} {es : List (ℕ × Bool)} → c ≤ a → Echoes d a es → Echoes d c es
  Echoes-lower c h (Echoes.done k) = Echoes.done (omega arith)
  Echoes-lower c h (echo b e k es) = echo b e (omega arith) es

  pub Echoes-le : {a : ℕ} {es : List (ℕ × Bool)} → Echoes d a es → a ≤ d
  Echoes-le (Echoes.done k) = k
  Echoes-le (echo b e k es) = omega (arith, Echoes-le es)

  pub Echoes-raise :
      (d' : ℕ) {a : ℕ} {es : List (ℕ × Bool)} → d ≤ d' → Echoes d a es → Echoes d' a es
  Echoes-raise d' h (Echoes.done k) = Echoes.done (omega arith)
  Echoes-raise d' h (echo b e k es) = echo b e k (Echoes-raise d' h es)

  pub Echoes-send :
      (bsn : ℕ) (bib : Bool) {a : ℕ} {es : List (ℕ × Bool)}
      → bsn ≡ before d
      → Echoes d a es
      → Echoes d a (es ++ ((bsn, bib) ∷ []))
  Echoes-send bsn bib e' (Echoes.done k) = echo d e' k (Echoes.done (omega arith))
  Echoes-send bsn bib e' (echo b e k es) = echo b e k (Echoes-send bsn bib e' es)

  pub Echoes-lose :
      (xs ys : List (ℕ × Bool)) (x : ℕ × Bool) {a : ℕ}
      → Echoes d a (xs ++ (x ∷ ys))
      → Echoes d a (xs ++ ys)
  Echoes-lose [] ys x {a} (echo b e k es) = Echoes-lower a k es
  Echoes-lose (w ∷ xs) ys x (echo b e k es) = echo b e k (Echoes-lose xs ys x es)
