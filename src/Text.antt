-- ===== src/Text.antt =====
-- The texts that `format!` makes: a text is the list of its ASCII codes. `{}` of an unsigned number is
-- decimal, `{:#04x}` of an octet is `0x` and two hexadecimal digits.
pub mod Read
use Prim.Native.Char.{code}
use Prim.Native.String.{String}
use mtp.Base.{
  ℕ, zero, suc, ◌+◌, ◌-◌, ◌*◌, ◌/◌, ◌%◌, Bool, true, false, ◌&&◌, List, [], ◌∷◌, ◌++◌, leb, ltb,
  if◌then◌else◌,
}

abbrev pub codes : String → List ℕ
codes String.[] = []
codes (String.◌∷◌ c s) = code c ∷ codes s

abbrev pub digit : ℕ → ℕ
digit n = 48 + n

-- The decimal digits of a number, the last of them first found; `fuel` bounds their count.
unfoldable pub digits : ℕ → ℕ → List ℕ
digits zero n = []
digits (suc fuel) n =
    let front = digits fuel (n / 10) in
    if ltb n 10 then digit n ∷ [] else front ++ (digit (n % 10) ∷ [])

unfoldable pub decimal : ℕ → List ℕ
decimal n = digits (suc n) n

-- A hexadecimal digit, and an octet as `{:#04x}`.
unfoldable pub hex_digit : ℕ → ℕ
hex_digit n = if ltb n 10 then 48 + n else 87 + n

unfoldable pub hex_octet : ℕ → List ℕ
hex_octet b = codes "0x" ++ (hex_digit (b / 16) ∷ hex_digit (b % 16) ∷ [])

-- `b as u8`.
abbrev pub as_number : Bool → ℕ
as_number true = 1
as_number false = 0
