-- ===== src/Monitor/Suerm.antt =====
-- src/monitor.rs: the signal unit error rate monitor, a leaky bucket. The counters are `u32`:
-- `+= 1` wraps, `saturating_sub` is the `-` of ℕ.
use mtp.Base.{ℕ, ◌+◌, ◌-◌, Bool, true, false, u32, saturating_add, leb, if◌then◌else◌}

abbrev pub suerm_threshold : ℕ
suerm_threshold = 64

abbrev pub suerm_decrement_interval : ℕ
suerm_decrement_interval = 256

-- `Suerm`.
pub record Suerm : Type 0 where
  pub count : ℕ
  pub threshold : ℕ
  pub decrement_interval : ℕ
  pub received_since_leak : ℕ
  pub failed : Bool

-- `Suerm::new`.
unfoldable pub new : ℕ → ℕ → Suerm
new threshold decrement_interval = record {
  count = 0;
  threshold = threshold;
  decrement_interval = decrement_interval;
  received_since_leak = 0;
  failed = false;
}

-- `Suerm::reset`.
unfoldable pub reset : Suerm → Suerm
reset m = record m { count = 0; received_since_leak = 0; failed = false }

-- The four statements of `Suerm::record`, in order.
receive : Suerm → Suerm
receive m = record m { received_since_leak = u32 (m.received_since_leak + 1) }

count_error : Bool → Suerm → Suerm
count_error in_error m = record m { count = if in_error then saturating_add m.count 1 else m.count }

leak : Suerm → Suerm
leak m =
    if leb m.decrement_interval m.received_since_leak
    then record m { received_since_leak = 0; count = m.count - 1 }
    else m

judge : Suerm → Suerm
judge m = if leb m.threshold m.count then record m { failed = true } else m

-- `Suerm::record`, the new monitor and the flag that it returns.
unfoldable pub record_su : Bool → Suerm → Suerm × Bool
unfolding receive count_error leak judge
record_su in_error m = let m' = judge (leak (count_error in_error (receive m))) in (m', m'.failed)
