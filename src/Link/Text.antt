-- ===== src/Link/Text.antt =====
-- src/link.rs: the `Display` texts.
use mtp.Base.{ℕ, List, ◌++◌}
use mtp.Text.{codes}
use mtp.Link.Types.{Mtp2State}
use mtp.Link.Engine.{Mtp2Link}

-- The text of a state.
unfoldable pub state_text : Mtp2State → List ℕ
state_text Mtp2State.out_of_service = codes "Out of Service"
state_text Mtp2State.not_aligned = codes "Not Aligned"
state_text Mtp2State.aligned = codes "Aligned"
state_text Mtp2State.proving = codes "Proving"
state_text Mtp2State.aligned_ready = codes "Aligned Ready"
state_text Mtp2State.aligned_not_ready = codes "Aligned Not Ready"
state_text Mtp2State.in_service = codes "In Service"
state_text Mtp2State.processor_outage = codes "Processor Outage"

-- The text of a link.
unfoldable pub link_text : Mtp2Link → List ℕ
link_text l = codes "MTP2 Link [state=" ++ state_text l.state ++ codes "]"
