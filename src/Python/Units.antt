-- ===== src/Python/Units.antt =====
-- src/python.rs: signal units to octets and back.
use mtp.Base.{ℕ, Bool, List}
use mtp.Error.{Result}
use mtp.SignalUnit.Header.{SuHeader}
use mtp.SignalUnit.Header
use mtp.SignalUnit.Unit.{SignalUnit}
use mtp.SignalUnit.Build
use mtp.SignalUnit.Codec
use mtp.Python.Result.{PyResult, ok, ◌>>=◌, mtp2_err}
use mtp.Python.Classes.{PyFisu, PyLssu, PyMsu, PyUnit, to_core, from_core}

-- `header`.
unfoldable pub header : ℕ → Bool → ℕ → Bool → Result SuHeader
header bsn bib fsn fib = Header.new bsn bib fsn fib

-- `PyFisu::encode`.
unfoldable pub encode_fisu : PyFisu → PyResult (List ℕ)
encode_fisu u = do
  h ← mtp2_err (header u.bsn u.bib u.fsn u.fib)
  mtp2_err (Codec.encode (Build.fisu h))

-- `PyLssu::encode`.
unfoldable pub encode_lssu : PyLssu → PyResult (List ℕ)
encode_lssu u = do
  h ← mtp2_err (header u.bsn u.bib u.fsn u.fib)
  mtp2_err (Codec.encode (SignalUnit.lssu h (to_core u.status) u.extended))

-- `PyMsu::encode`.
unfoldable pub encode_msu : PyMsu → PyResult (List ℕ)
encode_msu u = do
  h ← mtp2_err (header u.bsn u.bib u.fsn u.fib)
  su ← mtp2_err (Build.msu h u.sio u.sif)
  mtp2_err (Codec.encode su)

-- The method `encode` of an object.
unfoldable pub encode : PyUnit → PyResult (List ℕ)
encode (PyUnit.fisu u) = encode_fisu u
encode (PyUnit.lssu u) = encode_lssu u
encode (PyUnit.msu u) = encode_msu u

-- `su_to_py`.
unfoldable pub su_to_py : SignalUnit → PyUnit
su_to_py (SignalUnit.fisu h) =
    PyUnit.fisu (record { bsn = h.bsn; bib = h.bib; fsn = h.fsn; fib = h.fib })
su_to_py (SignalUnit.lssu h status extended) = PyUnit.lssu (record {
  status = from_core status;
  bsn = h.bsn;
  bib = h.bib;
  fsn = h.fsn;
  fib = h.fib;
  extended = extended;
})
su_to_py (SignalUnit.msu h sio sif) =
    PyUnit.msu (record { sio = sio; sif = sif; bsn = h.bsn; bib = h.bib; fsn = h.fsn; fib = h.fib })

-- `decode`.
unfoldable pub decode : List ℕ → PyResult PyUnit
decode data_ = mtp2_err (Codec.decode data_) >>= λ su. ok (su_to_py su)
