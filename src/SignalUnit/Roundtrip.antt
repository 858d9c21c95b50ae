-- ===== src/SignalUnit/Roundtrip.antt =====
-- src/signal_unit.rs: `encode` and `decode` are inverse to one another.
use mtp.Base.{ℕ, ◌+◌, ◌≡◌, arith, length, leb, u8, IsByte, if◌then◌else◌}
use mtp.Error.{ok, ◌>>=◌}
use mtp.SignalUnit.Header.{SuHeader, encode_seq_octets, decode_seq_octets, seq_octet}
use mtp.SignalUnit.Header
use mtp.SignalUnit.Unit.{SignalUnit, fisu, lssu, msu}
use mtp.SignalUnit.Codec.{encode, decode}
use mtp.SignalUnit.Octets.{
  low_seven-seq_octet, top_bit-seq_octet, seq_octet-fields, low_six-eq-mod, from_u8-as_u8,
}
use mtp.SignalUnit.Valid.{IsHeader, IsValid}

pub decode_seq_octets-encode :
    (h : SuHeader)
    → IsHeader h
    → decode_seq_octets (seq_octet h.bsn h.bib) (seq_octet h.fsn h.fib) ≡ h
unfolding decode_seq_octets
decode_seq_octets-encode h v = ground (
  arith,
  low_seven-seq_octet h.bsn v.0 h.bib,
  low_seven-seq_octet h.fsn v.1 h.fib,
  top_bit-seq_octet h.bsn v.0 h.bib,
  top_bit-seq_octet h.fsn v.1 h.fib,
)

pub encode_seq_octets-decode :
    (b0 b1 : ℕ) → IsByte b0 → IsByte b1 → encode_seq_octets (decode_seq_octets b0 b1) ≡ (b0, b1)
unfolding decode_seq_octets encode_seq_octets
encode_seq_octets-decode b0 b1 h0 h1 =
    ground (arith, seq_octet-fields b0 h0, seq_octet-fields b1 h1)

-- What `encode` writes is read back by `decode` as the same signal unit, for every unit that fits
-- the wire format; in particular both succeed.
pub decode-encode : (su : SignalUnit) → IsValid su → (encode su >>= decode) ≡ ok su
unfolding encode decode Header.new encode_seq_octets
decode-encode (fisu h) v = ground (arith, decode_seq_octets-encode h v)
decode-encode (lssu h s extended) v = ground (arith, decode_seq_octets-encode h v, from_u8-as_u8 s)
decode-encode (msu h sio sif) v = ground (
  arith,
  decode_seq_octets-encode h v.0,
  low_six-eq-mod (if leb 63 (1 + length sif) then 63 else u8 (1 + length sif)),
)
