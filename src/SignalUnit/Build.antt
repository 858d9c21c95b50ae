-- ===== src/SignalUnit/Build.antt =====
-- src/signal_unit.rs: the constructors that a caller builds signal units with.
use mtp.Base.{ℕ, ◌+◌, false, List, length, ltb, if◌then◌else◌}
use mtp.Error.{Result, ok, err, msu_too_large}
use mtp.SignalUnit.Status.{StatusIndication}
use mtp.SignalUnit.Header.{SuHeader}
use mtp.SignalUnit.Unit.{SignalUnit, max_msu_body}

-- `SignalUnit::fisu`.
unfoldable pub fisu : SuHeader → SignalUnit
fisu header = SignalUnit.fisu header

-- `SignalUnit::lssu`.
unfoldable pub lssu : SuHeader → StatusIndication → SignalUnit
lssu header status = SignalUnit.lssu header status false

-- `SignalUnit::msu`.
unfoldable pub msu : SuHeader → ℕ → List ℕ → Result SignalUnit
msu header sio sif =
    let body = 1 + length sif in
    if ltb max_msu_body body then err (msu_too_large body) else ok (SignalUnit.msu header sio sif)
