-- ===== src/Monitor/Trip.antt =====
-- src/monitor.rs: when the AERM aborts proving.
use mtp.Base.{ℕ, zero, suc, ◌+◌, ◌≤◌, ◌≡◌, arith, leb, u32_max, min}
use mtp.Monitor.Aerm.{Aerm, restart, is_tripped, record_error}

-- A number of signal units received in error, one after the other.
pub record_errors : ℕ → Aerm → Aerm
record_errors zero m = m
record_errors (suc n) m = record_errors n (record_error m).0

count-record_errors :
    (n : ℕ) (m : Aerm)
    → m.count ≤ u32_max
    → ((record_errors n m).count ≡ min (m.count + n) u32_max)
      × ((record_errors n m).threshold ≡ m.threshold)
unfolding record_errors record_error
count-record_errors zero m h = omega arith
count-record_errors (suc n) m h =
    omega (arith, count-record_errors n (record_error m).0 (omega arith))

-- After a restart with a threshold that fits a `u32`, the monitor has tripped exactly when the
-- errors seen since have reached the threshold, however many they are: the saturating counter
-- loses none below it.
pub record_errors-is_tripped :
    (n threshold : ℕ) (m : Aerm)
    → threshold ≤ u32_max
    → is_tripped (record_errors n (restart threshold m)) ≡ leb threshold n
unfolding is_tripped restart
record_errors-is_tripped n threshold m h =
    ground (arith, count-record_errors n (restart threshold m))
