-- ===== src/SignalUnit/Unit.antt =====
-- src/signal_unit.rs: the three kinds of signal unit, their header and length indicator.
use mtp.Base.{ℕ, ◌+◌, Bool, List, u8, length, leb, if◌then◌else◌}
use mtp.SignalUnit.Status.{StatusIndication}
use mtp.SignalUnit.Header.{SuHeader}

abbrev pub li_fisu : ℕ
li_fisu = 0

abbrev pub li_lssu_one : ℕ
li_lssu_one = 1

abbrev pub li_lssu_two : ℕ
li_lssu_two = 2

abbrev pub li_max : ℕ
li_max = 63

-- `MAX_MSU_BODY` of lib.rs.
abbrev pub max_msu_body : ℕ
max_msu_body = 273

-- `SignalUnit`. The Boolean of `lssu` is `extended`; `msu` carries `sio` and `sif`.
pub data SignalUnit : Type 0 where
  fisu : SuHeader → SignalUnit
  lssu : SuHeader → StatusIndication → Bool → SignalUnit
  msu : SuHeader → ℕ → List ℕ → SignalUnit

-- `SignalUnit::header`.
unfoldable pub header : SignalUnit → SuHeader
header (fisu h) = h
header (lssu h _ _) = h
header (msu h _ _) = h

-- `SignalUnit::length_indicator`.
unfoldable pub length_indicator : SignalUnit → ℕ
length_indicator (fisu _) = li_fisu
length_indicator (lssu _ _ extended) = if extended then li_lssu_two else li_lssu_one
length_indicator (msu _ _ sif) =
    let body = 1 + length sif in if leb li_max body then li_max else u8 body
