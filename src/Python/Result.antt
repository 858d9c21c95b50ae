-- ===== src/Python/Result.antt =====
-- src/python.rs: the exception `Mtp2Error`. Its text is not modelled: it holds what the text is made
-- from, an error of the core or the name of an unknown method.
use Prim.Native.String.{String}
use mtp.Error.{Mtp2Error, Result}
use mtp.Error

pub data PyError : Type 0 where
  core : Mtp2Error → PyError
  unknown_method : String → PyError

pub data PyResult {ℓ} (A : Type ℓ) : Type ℓ where
  ok : A → PyResult A
  raised : PyError → PyResult A

infixl 5 ◌>>=◌
abbrev pub ◌>>=◌ {ℓ κ} : {A : Type ℓ} {B : Type κ} → PyResult A → (A → PyResult B) → PyResult B
ok a >>= f = f a
raised e >>= f = raised e

-- `map_err(mtp2_err)`.
unfoldable pub mtp2_err {ℓ} : {A : Type ℓ} → Result A → PyResult A
mtp2_err (Error.ok a) = ok a
mtp2_err (Error.err e) = raised (PyError.core e)
