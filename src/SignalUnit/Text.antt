-- ===== src/SignalUnit/Text.antt =====
-- src/signal_unit.rs: the `Display` texts.
use mtp.Base.{ℕ, List, ◌++◌, length}
use mtp.Text.{codes, decimal, hex_octet, as_number}
use mtp.SignalUnit.Status.{
  StatusIndication, out_of_alignment, normal_alignment, emergency_alignment, out_of_service,
  processor_outage, busy,
}
use mtp.SignalUnit.Header.{SuHeader}
use mtp.SignalUnit.Unit.{SignalUnit, fisu, lssu, msu}

-- `StatusIndication::mnemonic`.
unfoldable pub mnemonic : StatusIndication → List ℕ
mnemonic out_of_alignment = codes "SIO"
mnemonic normal_alignment = codes "SIN"
mnemonic emergency_alignment = codes "SIE"
mnemonic out_of_service = codes "SIOS"
mnemonic processor_outage = codes "SIPO"
mnemonic busy = codes "SIB"

-- The text of a status indication.
unfoldable pub status_text : StatusIndication → List ℕ
status_text s = mnemonic s

-- The text of a header.
unfoldable pub header_text : SuHeader → List ℕ
header_text h =
    codes "bsn="
    ++ decimal h.bsn
    ++ codes " bib="
    ++ decimal (as_number h.bib)
    ++ codes " fsn="
    ++ decimal h.fsn
    ++ codes " fib="
    ++ decimal (as_number h.fib)

-- The text of a signal unit.
unfoldable pub unit_text : SignalUnit → List ℕ
unit_text (fisu h) = codes "FISU [" ++ header_text h ++ codes "]"
unit_text (lssu h status _) =
    codes "LSSU " ++ status_text status ++ codes " [" ++ header_text h ++ codes "]"
unit_text (msu h sio sif) =
    codes "MSU ["
    ++ header_text h
    ++ codes "] sio="
    ++ hex_octet sio
    ++ codes " sif_len="
    ++ decimal (length sif)
