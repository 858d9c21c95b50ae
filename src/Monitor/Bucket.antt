-- ===== src/Monitor/Bucket.antt =====
-- src/monitor.rs: the SUERM over a sequence of signal units.
use mtp.Base.{ℕ, suc, ◌≤◌, ◌<◌, ◌≡◌, refl, arith, Bool, true, false, List, [], ◌∷◌, u32_max}
use mtp.Monitor.Suerm.{Suerm, reset, record_su}

-- A sequence of signal units is recorded; `true` is a unit in error.
unfoldable pub record_all : List Bool → Suerm → Suerm
record_all [] m = m
record_all (e ∷ es) m = record_all es (record_su e m).0

abbrev pub errors : List Bool → ℕ
errors [] = 0
errors (true ∷ es) = suc (errors es)
errors (false ∷ es) = errors es

-- What holds between two records: no counter is near its limit, and the flag is up to date.
pub record Inv (m : Suerm) : Type 0 where
  pub interval : 0 < m.decrement_interval
  pub interval_u32 : m.decrement_interval ≤ u32_max
  pub threshold_u32 : m.threshold ≤ u32_max
  pub received : m.received_since_leak < m.decrement_interval
  pub flag : m.failed ≡ false → m.count < m.threshold
  pub count_u32 : m.count ≤ u32_max

pub reset-Inv :
    (m : Suerm)
    → 0 < m.decrement_interval
    → m.decrement_interval ≤ u32_max
    → 0 < m.threshold
    → m.threshold ≤ u32_max
    → Inv (reset m)
unfolding reset
reset-Inv m d d32 t t32 = ground arith

pub record_su-Inv : (e : Bool) (m : Suerm) → Inv m → Inv (record_su e m).0
unfolding record_su
record_su-Inv e m v = ground arith

pub record_su_frame :
    (e : Bool) (m : Suerm)
    → ((record_su e m).0.threshold ≡ m.threshold)
      × ((record_su e m).0.decrement_interval ≡ m.decrement_interval)
      × ((record_su e m).1 ≡ (record_su e m).0.failed)
      × (m.failed ≡ true → (record_su e m).0.failed ≡ true)
unfolding record_su
record_su_frame e m = ground arith

pub record_all-Inv : (es : List Bool) (m : Suerm) → Inv m → Inv (record_all es m)
unfolding record_all
record_all-Inv [] m v = v
record_all-Inv (e ∷ es) m v = record_all-Inv es (record_su e m).0 (record_su-Inv e m v)

pub record_all-threshold : (es : List Bool) (m : Suerm) → (record_all es m).threshold ≡ m.threshold
unfolding record_all
record_all-threshold [] m = refl
record_all-threshold (e ∷ es) m =
    ground (arith, record_all-threshold es (record_su e m).0, record_su_frame e m)
