-- ===== src/SignalUnit/Short.antt =====
-- src/signal_unit.rs: MSUs whose service information field is too short for the length indicator.
use mtp.Base.{ℕ, ◌<◌, ◌≡◌, ◌≢◌, arith, List, [], ◌∷◌, length, ◌==◌}
use mtp.Error.{ok, ◌>>=◌}
use mtp.SignalUnit.Status.{from_u8}
use mtp.SignalUnit.Header.{SuHeader}
use mtp.SignalUnit.Header
use mtp.SignalUnit.Unit.{lssu, msu}
use mtp.SignalUnit.Build
use mtp.SignalUnit.Codec.{encode, decode}
use mtp.SignalUnit.Roundtrip.{decode_seq_octets-encode}
use mtp.SignalUnit.Valid.{IsHeader}

-- An MSU with 7-bit sequence numbers and fewer than two octets in its service information field is
-- built and encoded without an error, and is never decoded as that MSU: the receiver reads its
-- service information octet as the status of an LSSU, or rejects it.
pub short_msu_misread :
    (h : SuHeader) (sio : ℕ) (sif : List ℕ)
    → IsHeader h
    → length sif < 2
    → (Build.msu h sio sif ≡ ok (msu h sio sif))
      × ((encode (msu h sio sif) >>= decode)
          ≡ (from_u8 sio >>= λ status. ok (lssu h status (length sif == 1))))
      × ((encode (msu h sio sif) >>= decode) ≢ ok (msu h sio sif))
unfolding encode decode Build.msu Header.new Header.encode_seq_octets
short_msu_misread h sio [] v s = (
  ground arith,
  ground (arith, decode_seq_octets-encode h v),
  ground (arith, decode_seq_octets-encode h v),
)
short_msu_misread h sio (b ∷ []) v s = (
  ground arith,
  ground (arith, decode_seq_octets-encode h v),
  ground (arith, decode_seq_octets-encode h v),
)
short_msu_misread h sio (b ∷ c ∷ sif) v s = absurd (omega arith)
