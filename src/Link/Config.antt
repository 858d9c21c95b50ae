-- ===== src/Link/Config.antt =====
-- src/link.rs: timers and error-rate parameters. Durations and counts are `u32`.
use mtp.Base.{ℕ, Bool, false}
use mtp.Monitor.Aerm
use mtp.Monitor.Suerm
use mtp.Retransmission.Method.{RetransmissionMethod, basic}

-- `Mtp2Config`.
pub record Mtp2Config : Type 0 where
  pub method : RetransmissionMethod
  pub emergency : Bool
  pub t1_aligned_ready : ℕ
  pub t2_not_aligned : ℕ
  pub t3_aligned : ℕ
  pub t4_proving_normal : ℕ
  pub t4_proving_emergency : ℕ
  pub t6_remote_congestion : ℕ
  pub t7_excessive_delay : ℕ
  pub aerm_threshold_normal : ℕ
  pub aerm_threshold_emergency : ℕ
  pub suerm_threshold : ℕ
  pub suerm_decrement_interval : ℕ
  pub proving_attempts : ℕ

-- `Mtp2Config::default`.
abbrev pub default : Mtp2Config
default = record {
  method = basic;
  emergency = false;
  t1_aligned_ready = 500;
  t2_not_aligned = 250;
  t3_aligned = 20;
  t4_proving_normal = 120;
  t4_proving_emergency = 6;
  t6_remote_congestion = 60;
  t7_excessive_delay = 20;
  aerm_threshold_normal = Aerm.aerm_threshold_normal;
  aerm_threshold_emergency = Aerm.aerm_threshold_emergency;
  suerm_threshold = Suerm.suerm_threshold;
  suerm_decrement_interval = Suerm.suerm_decrement_interval;
  proving_attempts = 5;
}
