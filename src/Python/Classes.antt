-- ===== src/Python/Classes.antt =====
-- src/python.rs: the enumerations and the classes of signal units.
use mtp.Base.{ℕ, Bool, List}
use mtp.SignalUnit.Status.{StatusIndication}
use mtp.Link.Types.{Mtp2State}

-- `PyStatus`.
pub data PyStatus : Type 0 where
  sio sin sie sios sipo sib : PyStatus

-- `PyStatus::to_core`.
unfoldable pub to_core : PyStatus → StatusIndication
to_core sio = StatusIndication.out_of_alignment
to_core sin = StatusIndication.normal_alignment
to_core sie = StatusIndication.emergency_alignment
to_core sios = StatusIndication.out_of_service
to_core sipo = StatusIndication.processor_outage
to_core sib = StatusIndication.busy

-- `PyStatus::from_core`.
unfoldable pub from_core : StatusIndication → PyStatus
from_core StatusIndication.out_of_alignment = sio
from_core StatusIndication.normal_alignment = sin
from_core StatusIndication.emergency_alignment = sie
from_core StatusIndication.out_of_service = sios
from_core StatusIndication.processor_outage = sipo
from_core StatusIndication.busy = sib

-- `PyState`.
pub data PyState : Type 0 where
  out_of_service not_aligned aligned proving : PyState
  aligned_ready aligned_not_ready in_service processor_outage : PyState

-- `PyState::from_core`.
unfoldable pub state_from_core : Mtp2State → PyState
state_from_core Mtp2State.out_of_service = out_of_service
state_from_core Mtp2State.not_aligned = not_aligned
state_from_core Mtp2State.aligned = aligned
state_from_core Mtp2State.proving = proving
state_from_core Mtp2State.aligned_ready = aligned_ready
state_from_core Mtp2State.aligned_not_ready = aligned_not_ready
state_from_core Mtp2State.in_service = in_service
state_from_core Mtp2State.processor_outage = processor_outage

-- `PyFisu`.
pub record PyFisu : Type 0 where
  pub bsn : ℕ
  pub bib : Bool
  pub fsn : ℕ
  pub fib : Bool

-- `PyLssu`.
pub record PyLssu : Type 0 where
  pub status : PyStatus
  pub bsn : ℕ
  pub bib : Bool
  pub fsn : ℕ
  pub fib : Bool
  pub extended : Bool

-- `PyMsu`.
pub record PyMsu : Type 0 where
  pub sio : ℕ
  pub sif : List ℕ
  pub bsn : ℕ
  pub bib : Bool
  pub fsn : ℕ
  pub fib : Bool

-- An object of one of the three classes, `Py<PyAny>` in the source.
pub data PyUnit : Type 0 where
  fisu : PyFisu → PyUnit
  lssu : PyLssu → PyUnit
  msu : PyMsu → PyUnit
