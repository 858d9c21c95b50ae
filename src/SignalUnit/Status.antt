-- ===== src/SignalUnit/Status.antt =====
-- src/signal_unit.rs: the six status indications and their 3-bit codes.
use Prim.Native.Nat.{bit_and}
use mtp.Base.{ℕ, ◌==◌, if◌then◌else◌}
use mtp.Error.{Result, ok, err, invalid_status_indication}

-- `StatusIndication`.
pub data StatusIndication : Type 0 where
  out_of_alignment normal_alignment emergency_alignment : StatusIndication
  out_of_service processor_outage busy : StatusIndication

-- The discriminant, `status as u8`.
unfoldable pub as_u8 : StatusIndication → ℕ
as_u8 out_of_alignment = 0
as_u8 normal_alignment = 1
as_u8 emergency_alignment = 2
as_u8 out_of_service = 3
as_u8 processor_outage = 4
as_u8 busy = 5

-- The `match` of `from_u8` on the masked value.
of_code : ℕ → Result StatusIndication
of_code c =
    if c == 0
    then ok out_of_alignment
    else if c == 1
    then ok normal_alignment
    else if c == 2
    then ok emergency_alignment
    else if c == 3
    then ok out_of_service
    else if c == 4
    then ok processor_outage
    else if c == 5
    then ok busy
    else err (invalid_status_indication c)

-- `StatusIndication::from_u8`.
unfoldable pub from_u8 : ℕ → Result StatusIndication
unfolding of_code
from_u8 value = of_code (bit_and value 0x07)
