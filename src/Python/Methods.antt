-- ===== src/Python/Methods.antt =====
-- src/python.rs: the methods of `Link` that call the core method of the same name, and its state.
use mtp.Base.{Bool}
use mtp.Link.Engine.{Mtp2Link}
use mtp.Link.Manage
use mtp.Link.Inbound
use mtp.Link.Time
use mtp.Python.Classes.{PyState, state_from_core}

-- `PyLink::state`.
unfoldable pub state : Mtp2Link → PyState
state l = state_from_core l.state

-- `PyLink::start`.
unfoldable pub start : Mtp2Link → Mtp2Link
start l = Manage.start l

-- `PyLink::stop`.
unfoldable pub stop : Mtp2Link → Mtp2Link
stop l = Manage.stop l

-- `PyLink::set_emergency`.
unfoldable pub set_emergency : Bool → Mtp2Link → Mtp2Link
set_emergency emergency l = Manage.set_emergency emergency l

-- `PyLink::local_processor_outage`.
unfoldable pub local_processor_outage : Mtp2Link → Mtp2Link
local_processor_outage l = Manage.local_processor_outage l

-- `PyLink::local_processor_recovered`.
unfoldable pub local_processor_recovered : Mtp2Link → Mtp2Link
local_processor_recovered l = Manage.local_processor_recovered l

-- `PyLink::local_busy`.
unfoldable pub local_busy : Mtp2Link → Mtp2Link
local_busy l = Manage.local_busy l

-- `PyLink::local_busy_ended`.
unfoldable pub local_busy_ended : Mtp2Link → Mtp2Link
local_busy_ended l = Manage.local_busy_ended l

-- `PyLink::handle_corrupted_su`.
unfoldable pub handle_corrupted_su : Mtp2Link → Mtp2Link
handle_corrupted_su l = Inbound.handle_corrupted_su l

-- `PyLink::tick`.
unfoldable pub tick : Mtp2Link → Mtp2Link
tick l = Time.tick l
