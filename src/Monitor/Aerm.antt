-- ===== src/Monitor/Aerm.antt =====
-- src/monitor.rs: the alignment error rate monitor. The fields are `u32`.
use mtp.Base.{ℕ, Bool, saturating_add, leb}

abbrev pub aerm_threshold_normal : ℕ
aerm_threshold_normal = 4

abbrev pub aerm_threshold_emergency : ℕ
aerm_threshold_emergency = 1

-- `Aerm`.
pub record Aerm : Type 0 where
  pub count : ℕ
  pub threshold : ℕ

-- `Aerm::new`.
unfoldable pub new : ℕ → Aerm
new threshold = record { count = 0; threshold = threshold }

-- `Aerm::restart`.
unfoldable pub restart : ℕ → Aerm → Aerm
restart threshold m = record { count = 0; threshold = threshold }

-- `Aerm::is_tripped`.
unfoldable pub is_tripped : Aerm → Bool
is_tripped m = leb m.threshold m.count

-- `Aerm::record_error`.
unfoldable pub record_error : Aerm → Aerm × Bool
unfolding is_tripped
record_error m = let m' = record m { count = saturating_add m.count 1 } in (m', is_tripped m')
