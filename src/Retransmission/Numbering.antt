-- ===== src/Retransmission/Numbering.antt =====
-- src/retransmission.rs: the sequence numbers of a retransmission buffer, and what an
-- acknowledgement frees of it. Positions in the stream of MSUs are unbounded here; the code keeps
-- them modulo 128.
use mtp.Base.{
  ℕ, zero, suc, ◌+◌, ◌%◌, ◌≤◌, ◌<◌, ◌≡◌, refl, arith, false, List, [], ◌∷◌, ◌++◌, length, drop, ltb,
}
use mtp.Retransmission.Seq.{seq_add, seq_forward}
use mtp.Retransmission.Tx.{BufferedMsu, free}

-- The buffered MSUs carry consecutive numbers, from that of position `a` on.
abbrev pub IsNumbered : ℕ → List BufferedMsu → Type 0
IsNumbered a [] = Unit {0}
IsNumbered a (m ∷ ms) = (m.fsn ≡ a % 128) × IsNumbered (suc a) ms

-- The number of the position before `a`: what a receiver that has all up to there sends as BSN.
abbrev pub before : ℕ → ℕ
before a = (a + 127) % 128

pub seq_add-before : (n : ℕ) → seq_add (before n) 1 ≡ n % 128
unfolding seq_add
seq_add-before n = omega arith

-- The distance from the last received number is 1 at the next position only.
pub seq_forward-before :
    (i d : ℕ) → i ≤ d + 127 → d ≤ i + 127 → seq_forward (i % 128) (before d) ≡ 1 → i ≡ d
unfolding seq_forward
seq_forward-before i d h k e = omega arith

pub seq_forward-next : (d : ℕ) → seq_forward (d % 128) (before d) ≡ 1
unfolding seq_forward
seq_forward-next d = omega arith

pub IsNumbered-append :
    (a : ℕ) (xs : List BufferedMsu) (m : BufferedMsu)
    → IsNumbered a xs
    → m.fsn ≡ (a + length xs) % 128
    → IsNumbered a (xs ++ (m ∷ []))
IsNumbered-append a [] m v h = (omega arith, tt)
IsNumbered-append a (x ∷ xs) m v h = (v.0, IsNumbered-append (suc a) xs m v.1 (omega arith))

pub IsNumbered-drop :
    (k a b : ℕ) (xs : List BufferedMsu) → b ≡ a + k → IsNumbered a xs → IsNumbered b (drop k xs)
IsNumbered-drop zero a b xs e v = let p : b ≡ a = omega arith in rw p v
IsNumbered-drop (suc k) a b [] e v = tt
IsNumbered-drop (suc k) a b (x ∷ xs) e v = IsNumbered-drop k (suc a) b xs (omega arith) v.1

-- An acknowledgement of the first `k` MSUs of the buffer, for `k` up to 64, frees just those.
pub free-drop :
    (k a b : ℕ) (xs : List BufferedMsu)
    → b ≡ a + k
    → IsNumbered a xs
    → k ≤ length xs
    → k ≤ 64
    → free (before b) xs ≡ (drop k xs, ltb 0 k)
unfolding free seq_forward
free-drop zero a b [] e v l h = refl
free-drop zero a b (x ∷ xs) e v l h = ground arith
free-drop (suc k) a b [] e v l h = absurd (omega arith)
free-drop (suc k) a b (x ∷ xs) e v l h =
    ground (arith, free-drop k (suc a) b xs (omega arith) v.1 (omega arith) (omega arith))

-- One of 65 to 127 MSUs frees none.
pub free_stalls :
    (k a b : ℕ) (xs : List BufferedMsu)
    → b ≡ a + k
    → IsNumbered a xs
    → k ≤ length xs
    → 64 < k
    → k < 128
    → free (before b) xs ≡ (xs, false)
unfolding free seq_forward
free_stalls k a b [] e v l h h' = absurd (omega arith)
free_stalls k a b (x ∷ xs) e v l h h' = ground arith
