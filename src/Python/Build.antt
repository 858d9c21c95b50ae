-- ===== src/Python/Build.antt =====
-- src/python.rs: the constructors of the classes of signal units, with their optional arguments. PyO3
-- sees to it that a number is an octet.
use mtp.Base.{ℕ, Bool, true, false, Option, List}
use mtp.Python.Classes.{PyStatus, PyFisu, PyLssu, PyMsu}
use mtp.Python.Link.{unwrap_or}

-- The optional sequence numbers and indicator bits.
pub record Numbers : Type 0 where
  pub bsn : Option ℕ
  pub bib : Option Bool
  pub fsn : Option ℕ
  pub fib : Option Bool

-- `PyFisu::new`.
unfoldable pub fisu : Numbers → PyFisu
fisu n = record {
  bsn = unwrap_or n.bsn 127;
  bib = unwrap_or n.bib true;
  fsn = unwrap_or n.fsn 127;
  fib = unwrap_or n.fib true;
}

-- `PyLssu::new`.
unfoldable pub lssu : PyStatus → Numbers → Option Bool → PyLssu
lssu status n extended = record {
  status = status;
  bsn = unwrap_or n.bsn 127;
  bib = unwrap_or n.bib true;
  fsn = unwrap_or n.fsn 127;
  fib = unwrap_or n.fib true;
  extended = unwrap_or extended false;
}

-- `PyMsu::new`.
unfoldable pub msu : ℕ → List ℕ → Numbers → PyMsu
msu sio sif n = record {
  sio = sio;
  sif = sif;
  bsn = unwrap_or n.bsn 0;
  bib = unwrap_or n.bib true;
  fsn = unwrap_or n.fsn 0;
  fib = unwrap_or n.fib true;
}
