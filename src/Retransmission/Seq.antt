-- ===== src/Retransmission/Seq.antt =====
-- src/retransmission.rs: arithmetic on 7-bit sequence numbers.
use mtp.Base.{ℕ, ◌+◌, ◌-◌, ◌/◌, ◌%◌, ◌^◌, u8}
use mtp.SignalUnit.Header.{seq_modulus}

abbrev pub seq_half : ℕ
seq_half = seq_modulus / 2

-- `(a + b) mod 128`; the operands are `u8`, so the `u16` sum does not wrap.
unfoldable pub seq_add : ℕ → ℕ → ℕ
seq_add a b = u8 ((a + b) % seq_modulus)

-- `(a - b) mod 128`, over `u16`. The subtraction wraps for `b` above `a + 128`, where a debug build
-- panics; both numbers are 7-bit wherever a decoded unit brings them here.
unfoldable pub seq_forward : ℕ → ℕ → ℕ
seq_forward a b = u8 ((a + seq_modulus + 2 ^ 16 - b) % 2 ^ 16 % seq_modulus)
