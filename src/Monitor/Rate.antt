-- ===== src/Monitor/Rate.antt =====
-- src/monitor.rs: which error rates take a link out of service, and which never do.
use native.Mathlib.Nat.{le-div_iff_mul-le}
use mtp.Base.{
  ℕ, ◌+◌, ◌*◌, ◌/◌, ◌≤◌, ◌<◌, ◌≡◌, ◌⊎◌, inr, refl, arith, Bool, true, false, List, [], ◌∷◌, length,
  leb, u32_max, if◌then◌else◌,
}
use mtp.Monitor.Suerm.{Suerm, reset, record_su}
use mtp.Monitor.Bucket.{
  record_all, errors, Inv, reset-Inv, record_su-Inv, record_su_frame, record_all-Inv,
  record_all-threshold,
}

-- A failure stays until the monitor is reset.
pub record_all-failed :
    (es : List Bool) (m : Suerm) → m.failed ≡ true → (record_all es m).failed ≡ true
unfolding record_all
record_all-failed [] m h = h
record_all-failed (e ∷ es) m h = record_all-failed es (record_su e m).0 ((record_su_frame e m).3 h)

-- The leaks of one record.
abbrev pub leaked : Suerm → ℕ
leaked m = if leb m.decrement_interval (m.received_since_leak + 1) then 1 else 0

pub record_su_step :
    (e : Bool) (m : Suerm)
    → Inv m
    → let m' = (record_su e m).0 in
      (leaked m * m.decrement_interval + m'.received_since_leak ≡ m.received_since_leak + 1)
      × ((m'.failed ≡ true) ⊎ (m.count + errors (e ∷ []) ≤ m'.count + leaked m))
unfolding record_su
record_su_step e m v = ground arith

-- The bucket keeps every error but those that leaked, one for each interval, until it fails.
bucket_keeps :
    (es : List Bool) (m : Suerm)
    → Inv m
    → (k : ℕ) × (k * m.decrement_interval + (record_all es m).received_since_leak
        ≡ m.received_since_leak + length es)
      × (((record_all es m).failed ≡ true) ⊎ (m.count + errors es ≤ (record_all es m).count + k))
unfolding record_all
bucket_keeps [] m v = (0, omega arith, inr (omega arith))
bucket_keeps (e ∷ es) m v =
    let m' = (record_su e m).0 in
    let (k, leaks, kept) = bucket_keeps es m' (record_su-Inv e m v) in
    (
      leaked m + k,
      grind (arith, leaks, record_su_step e m v, record_su_frame e m),
      ground (arith, record_su_step e m v, kept, record_all-failed es m'),
    )

-- A run from a reset monitor, with the parameters that a link gives it.
module _ (m : Suerm) (d : 0 < m.decrement_interval) (d32 : m.decrement_interval ≤ u32_max)
    (t : 0 < m.threshold) (t32 : m.threshold ≤ u32_max) (es : List Bool) where
  -- When the errors since a reset exceed the leaks, one for each interval of received units, by
  -- the threshold, the monitor has declared a failure; interval and threshold are positive and fit
  -- a `u32`.
  pub record_all_fails :
      m.threshold + length es / m.decrement_interval ≤ errors es
      → (record_all es (reset m)).failed ≡ true
  unfolding reset
  record_all_fails h =
      let v = reset-Inv m d d32 t t32 in
      let (k, leaks, kept) = bucket_keeps es (reset m) v in
      let few : k ≤ length es / m.decrement_interval =
        (le-div_iff_mul-le d).1 (omega (arith, leaks)) in
      ground (arith, kept, few, record_all-threshold es (reset m), record_all-Inv es (reset m) v)

record_su_within :
    (e : Bool) (es : List Bool) (m : Suerm)
    → m.failed ≡ false
    → m.count + errors (e ∷ es) < m.threshold
    → ((record_su e m).0.failed ≡ false)
      × ((record_su e m).0.count + errors es < (record_su e m).0.threshold)
unfolding record_su
record_su_within e es m f h = ground arith

within_threshold :
    (es : List Bool) (m : Suerm)
    → m.failed ≡ false
    → m.count + errors es < m.threshold
    → (record_all es m).failed ≡ false
unfolding record_all
within_threshold [] m f h = f
within_threshold (e ∷ es) m f h =
    let (kept, bound) = record_su_within e es m f h in
    within_threshold es (record_su e m).0 kept bound

-- Fewer errors since a reset than the threshold never declare a failure, however they are spaced.
pub record_all_holds :
    (m : Suerm) (es : List Bool)
    → errors es < m.threshold
    → (record_all es (reset m)).failed ≡ false
unfolding reset
record_all_holds m es h = within_threshold es (reset m) refl (omega arith)
