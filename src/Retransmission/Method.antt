-- ===== src/Retransmission/Method.antt =====
-- src/retransmission.rs: the two error-correction methods and the PCR thresholds.
use mtp.Base.{ℕ}

-- `PcrParams`.
pub record PcrParams : Type 0 where
  pub n1 : ℕ
  pub n2 : ℕ

-- `PcrParams::default`.
abbrev pub default : PcrParams
default = record { n1 = 127; n2 = 8000 }

-- `RetransmissionMethod`.
pub data RetransmissionMethod : Type 0 where
  basic : RetransmissionMethod
  pcr : PcrParams → RetransmissionMethod
