-- ===== src/SignalUnit/Valid.antt =====
-- src/signal_unit.rs: which signal units fit the wire format.
use mtp.Base.{◌≤◌, ◌<◌, length}
use mtp.SignalUnit.Header.{SuHeader, seq_modulus}
use mtp.SignalUnit.Unit.{SignalUnit, fisu, lssu, msu, max_msu_body}

-- Both sequence numbers fit their seven bits.
abbrev pub IsHeader : SuHeader → Type 0
IsHeader h = (h.bsn < seq_modulus) × (h.fsn < seq_modulus)

-- An MSU has a service information field of 2 to 272 octets, so that its length indicator is none
-- of those of the other two kinds.
abbrev pub IsValid : SignalUnit → Type 0
IsValid (fisu h) = IsHeader h
IsValid (lssu h _ _) = IsHeader h
IsValid (msu h _ sif) = IsHeader h × (2 ≤ length sif) × (length sif < max_msu_body)
