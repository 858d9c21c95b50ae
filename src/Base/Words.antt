-- ===== src/Base/Words.antt =====
-- Machine words as native numbers: casts, saturating arithmetic, and checks of a whole byte range.
use Prim.Native.Nat.{ℕ, zero, suc, ◌+◌, ◌-◌, ◌%◌, ◌^◌, ◌<◌, min}
use mathlib.Core.Path.{◌≡◌}
use mathlib.Core.Bool.{Bool, true, ◌&&◌}
use native.Mathlib.Omega.{arith}

-- `x as u8`, and the value of a `u32` sum that wraps.
abbrev pub u8 : ℕ → ℕ
u8 n = n % 256

abbrev pub u32 : ℕ → ℕ
u32 n = n % 2 ^ 32

abbrev pub u32_max : ℕ
u32_max = 2 ^ 32 - 1

-- `u32::saturating_add`. `saturating_sub` is the `-` of ℕ.
abbrev pub saturating_add : ℕ → ℕ → ℕ
saturating_add a b = min (a + b) u32_max

abbrev pub IsByte : ℕ → Type 0
IsByte n = n < 256

-- A test of all the values of a byte, by running it on each.
unfoldable pub holds_for_all : (ℕ → Bool) → ℕ → Bool
holds_for_all test zero = true
holds_for_all test (suc top) = holds_for_all test top && test top

pub holds_for_all_lem :
    (test : ℕ → Bool) (top : ℕ) {b : ℕ} → b < top → holds_for_all test top ≡ true → test b ≡ true
unfolding holds_for_all
holds_for_all_lem test zero small h = absurd (omega arith)
holds_for_all_lem test (suc top) {b = b} small h =
    ground (arith, holds_for_all_lem test top {b = b})
