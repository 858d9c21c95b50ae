-- ===== src/Retransmission/Copy.antt =====
-- src/retransmission.rs: the retransmission buffer against the stream of submitted MSUs.
use native.Mathlib.Nat.{add-zero}
use mtp.Base.{
  ℕ, zero, suc, ◌+◌, ◌%◌, ◌≡◌, arith, some, List, [], ◌∷◌, ◌++◌, length, get_elem?,
  get_elem?-append, drop,
}
use mtp.Retransmission.Tx.{BufferedMsu}
use mtp.Retransmission.Numbering.{IsNumbered}

-- The buffered MSUs are those of the stream from position `a` on.
abbrev pub IsCopy : List (ℕ × List ℕ) → ℕ → List BufferedMsu → Type 0
IsCopy stream a [] = Unit {0}
IsCopy stream a (m ∷ ms) = (get_elem? stream a ≡ some (m.sio, m.sif)) × IsCopy stream (suc a) ms

-- The buffered MSU at index `j` has position `a + j`.
pub buffered :
    (stream : List (ℕ × List ℕ)) (a j : ℕ) (xs : List BufferedMsu) (m : BufferedMsu)
    → IsNumbered a xs
    → IsCopy stream a xs
    → get_elem? xs j ≡ some m
    → (m.fsn ≡ (a + j) % 128) × (get_elem? stream (a + j) ≡ some (m.sio, m.sif))
buffered stream a j [] m v c e = ground arith
buffered stream a zero (x ∷ xs) m v c e = rw (add-zero a) (ground arith, ground arith)
buffered stream a (suc j) (x ∷ xs) m v c e =
    let r = buffered stream (suc a) j xs m v.1 c.1 e in
    let shift : a + suc j ≡ suc a + j = omega arith in rw shift r

pub IsCopy-extend :
    (stream more : List (ℕ × List ℕ)) (a : ℕ) (xs : List BufferedMsu)
    → IsCopy stream a xs
    → IsCopy (stream ++ more) a xs
IsCopy-extend stream more a [] c = tt
IsCopy-extend stream more a (x ∷ xs) c =
    (get_elem?-append stream more a c.0, IsCopy-extend stream more (suc a) xs c.1)

pub IsCopy-append :
    (stream : List (ℕ × List ℕ)) (a n : ℕ) (xs : List BufferedMsu) (m : BufferedMsu)
    → n ≡ a + length xs
    → IsCopy stream a xs
    → get_elem? stream n ≡ some (m.sio, m.sif)
    → IsCopy stream a (xs ++ (m ∷ []))
IsCopy-append stream a n [] m e c h = ((let p : n ≡ a = omega arith in rw p at h), tt)
IsCopy-append stream a n (x ∷ xs) m e c h =
    (c.0, IsCopy-append stream (suc a) n xs m (omega arith) c.1 h)

pub IsCopy-drop :
    (stream : List (ℕ × List ℕ)) (k a b : ℕ) (xs : List BufferedMsu)
    → b ≡ a + k
    → IsCopy stream a xs
    → IsCopy stream b (drop k xs)
IsCopy-drop stream zero a b xs e c = let p : b ≡ a = omega arith in rw p c
IsCopy-drop stream (suc k) a b [] e c = tt
IsCopy-drop stream (suc k) a b (x ∷ xs) e c = IsCopy-drop stream k (suc a) b xs (omega arith) c.1
