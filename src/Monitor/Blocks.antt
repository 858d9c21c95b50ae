-- ===== src/Monitor/Blocks.antt =====
-- src/monitor.rs: error rates that the leak of the SUERM makes up for.
use mtp.Base.{ℕ, ◌+◌, ◌≤◌, ◌<◌, ◌≡◌, refl, arith, Bool, false, List, [], ◌∷◌, length, All, u32_max}
use mtp.Monitor.Suerm.{Suerm, reset, record_su}
use mtp.Monitor.Bucket.{record_all, errors, Inv, reset-Inv, record_su_frame}

-- Part of an interval is left, and its errors will not raise the bucket above `c + 1`.
record WithinBlock (c : ℕ) (es : List Bool) (m : Suerm) : Type 0 where
  inv : Inv m
  rest : m.received_since_leak + length es ≡ m.decrement_interval
  bound : m.count + errors es ≤ c + 1
  room : c + 1 < m.threshold
  sound : m.failed ≡ false

-- Between two intervals the bucket holds at most `c`.
pub record AtBlock (c : ℕ) (m : Suerm) : Type 0 where
  pub inv : Inv m
  pub fresh : m.received_since_leak ≡ 0
  pub bound : m.count ≤ c
  pub room : c + 1 < m.threshold
  pub sound : m.failed ≡ false

step-WithinBlock :
    (c : ℕ) (e f : Bool) (es : List Bool) (m : Suerm)
    → WithinBlock c (e ∷ f ∷ es) m
    → WithinBlock c (f ∷ es) (record_su e m).0
unfolding record_su
step-WithinBlock c e f es m v = ground arith

last-AtBlock :
    (c : ℕ) (e : Bool) (m : Suerm) → WithinBlock c (e ∷ []) m → AtBlock c (record_su e m).0
unfolding record_su
last-AtBlock c e m v = ground arith

block-AtBlock :
    (c : ℕ) (es : List Bool) (m : Suerm) → WithinBlock c es m → AtBlock c (record_all es m)
unfolding record_all
block-AtBlock c [] m v = absurd (omega arith)
block-AtBlock c (e ∷ []) m v = last-AtBlock c e m v
block-AtBlock c (e ∷ f ∷ es) m v =
    block-AtBlock c (f ∷ es) (record_su e m).0 (step-WithinBlock c e f es m v)

-- The blocks of received units, in order.
pub record_blocks : List (List Bool) → Suerm → Suerm
record_blocks [] m = m
record_blocks (b ∷ bs) m = record_blocks bs (record_all b m)

-- An interval of received units with at most one error.
abbrev pub IsQuiet : ℕ → List Bool → Type 0
IsQuiet interval b = (length b ≡ interval) × (errors b ≤ 1)

record_all-interval :
    (es : List Bool) (m : Suerm) → (record_all es m).decrement_interval ≡ m.decrement_interval
unfolding record_all
record_all-interval [] m = refl
record_all-interval (e ∷ es) m =
    ground (arith, record_all-interval es (record_su e m).0, record_su_frame e m)

blocks-AtBlock :
    (d : ℕ) (bs : List (List Bool)) (c : ℕ) (m : Suerm)
    → d ≡ m.decrement_interval
    → All (IsQuiet d) bs
    → AtBlock c m
    → AtBlock c (record_blocks bs m)
unfolding record_blocks
blocks-AtBlock d [] c m e q v = v
blocks-AtBlock d (b ∷ bs) c m e q v =
    blocks-AtBlock d bs c (record_all b m) (ground (arith, record_all-interval b m)) q.1
      (block-AtBlock c b m (ground arith))

-- From a reset on, at most one error in each interval of received units never declares a failure,
-- for a threshold of two or more and a positive interval that both fit a `u32`: the bucket is
-- empty at the end of every interval.
pub record_blocks_holds :
    (bs : List (List Bool)) (m : Suerm)
    → 0 < m.decrement_interval
    → m.decrement_interval ≤ u32_max
    → 2 ≤ m.threshold
    → m.threshold ≤ u32_max
    → All (IsQuiet m.decrement_interval) bs
    → ((record_blocks bs (reset m)).failed ≡ false) × ((record_blocks bs (reset m)).count ≡ 0)
unfolding reset
record_blocks_holds bs m d d32 t t32 q =
    let v : AtBlock 0 (record_blocks bs (reset m)) =
      blocks-AtBlock m.decrement_interval bs 0 (reset m) refl q
        (ground (arith, reset-Inv m d d32 (omega arith) t32)) in
    (v.sound, omega (arith, v.bound))
