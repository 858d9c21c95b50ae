-- ===== src/Python/Repr.antt =====
-- src/python.rs: the texts of `__repr__`, but for that of `Event`.
use mtp.Base.{ℕ, List, ◌++◌, length}
use mtp.Text.{codes, decimal, hex_octet, as_number}
use mtp.SignalUnit.Text.{status_text}
use mtp.Link.Engine.{Mtp2Link}
use mtp.Link.Text.{state_text}
use mtp.Python.Classes.{PyFisu, PyLssu, PyMsu, to_core}

-- `PyFisu::__repr__`.
unfoldable pub fisu_repr : PyFisu → List ℕ
fisu_repr u =
    codes "Fisu(bsn="
    ++ decimal u.bsn
    ++ codes ", bib="
    ++ decimal (as_number u.bib)
    ++ codes ", fsn="
    ++ decimal u.fsn
    ++ codes ", fib="
    ++ decimal (as_number u.fib)
    ++ codes ")"

-- `PyLssu::__repr__`.
unfoldable pub lssu_repr : PyLssu → List ℕ
lssu_repr u =
    codes "Lssu("
    ++ status_text (to_core u.status)
    ++ codes ", bsn="
    ++ decimal u.bsn
    ++ codes ", fsn="
    ++ decimal u.fsn
    ++ codes ")"

-- `PyMsu::__repr__`.
unfoldable pub msu_repr : PyMsu → List ℕ
msu_repr u =
    codes "Msu(sio="
    ++ hex_octet u.sio
    ++ codes ", sif_len="
    ++ decimal (length u.sif)
    ++ codes ", bsn="
    ++ decimal u.bsn
    ++ codes ", fsn="
    ++ decimal u.fsn
    ++ codes ")"

-- `PyLink::__repr__`.
unfoldable pub link_repr : Mtp2Link → List ℕ
link_repr l = codes "Link(state=" ++ state_text l.state ++ codes ")"
