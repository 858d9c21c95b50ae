-- ===== src/Error.antt =====
-- src/error.rs: the errors of framing and parsing, and the results that carry them.
use mtp.Base.{ℕ}

-- `Mtp2Error`; the named fields of a variant are its arguments in order.
pub data Mtp2Error : Type 0 where
  too_short : (expected actual : ℕ) → Mtp2Error
  length_indicator_mismatch : (li octets : ℕ) → Mtp2Error
  invalid_status_indication : ℕ → Mtp2Error
  sequence_number_out_of_range : ℕ → Mtp2Error
  msu_too_large : ℕ → Mtp2Error

-- `Result<T, Mtp2Error>`.
pub data Result {ℓ} (A : Type ℓ) : Type ℓ where
  ok : A → Result A
  err : Mtp2Error → Result A

-- The `?` operator.
infixl 5 ◌>>=◌ ◌>>◌
abbrev pub ◌>>=◌ {ℓ κ} : {A : Type ℓ} {B : Type κ} → Result A → (A → Result B) → Result B
ok a >>= f = f a
err e >>= f = err e

abbrev pub ◌>>◌ {ℓ κ} : {A : Type ℓ} {B : Type κ} → Result A → Result B → Result B
m >> k = m >>= λ _. k
