-- ===== src/SignalUnit/Reencode.antt =====
-- src/signal_unit.rs: what `decode` accepts, and what `encode` makes of it.
use mtp.Base.{ℕ, ◌%◌, ◌≡◌, arith, List, [], ◌∷◌, ◌==◌, All, IsByte, if◌then◌else◌}
use mtp.Error.{ok}
use mtp.SignalUnit.Header.{SuHeader, encode_seq_octets, decode_seq_octets}
use mtp.SignalUnit.Header
use mtp.SignalUnit.Unit.{SignalUnit, fisu, lssu, msu, length_indicator}
use mtp.SignalUnit.Codec.{encode, decode}
use mtp.SignalUnit.Octets.{low_seven-eq-mod, low_six-eq-mod, low_three-eq-mod, as_u8-from_u8}
use mtp.SignalUnit.Roundtrip.{encode_seq_octets-decode}
use mtp.SignalUnit.Valid.{IsHeader, IsValid}

-- The spare bits of a received unit: two beside the length indicator, and all of the status field
-- but the three bits of the code.
canonical_body : ℕ → List ℕ → List ℕ
canonical_body li [] = []
canonical_body li (b ∷ bs) =
    if li == 1 then b % 8 ∷ bs else if li == 2 then b % 8 ∷ 0 ∷ [] else b ∷ bs

-- A received unit with its spare bits cleared.
pub canonical : List ℕ → List ℕ
unfolding canonical_body
canonical (b0 ∷ b1 ∷ b2 ∷ body) = b0 ∷ b1 ∷ b2 % 64 ∷ canonical_body (b2 % 64) body
canonical bytes = bytes

decode_seq_octets-IsHeader :
    (b0 b1 : ℕ) → IsByte b0 → IsByte b1 → IsHeader (decode_seq_octets b0 b1)
unfolding decode_seq_octets
decode_seq_octets-IsHeader b0 b1 h0 h1 =
    ground (arith, low_seven-eq-mod b0 h0, low_seven-eq-mod b1 h1)

-- A signal unit that was decoded from octets fits the wire format: its sequence numbers have seven
-- bits, and an MSU has 2 to 272 octets of service information.
pub decode-IsValid :
    (bytes : List ℕ) (su : SignalUnit) → All IsByte bytes → decode bytes ≡ ok su → IsValid su
unfolding decode
decode-IsValid [] su v h = ground arith
decode-IsValid (_ ∷ []) su v h = ground arith
decode-IsValid (_ ∷ _ ∷ []) su v h = ground arith
decode-IsValid (b0 ∷ b1 ∷ b2 ∷ []) su v h =
    ground (arith, decode_seq_octets-IsHeader b0 b1 v.0 v.1.0)
decode-IsValid (b0 ∷ b1 ∷ b2 ∷ sio ∷ sif) su v h =
    ground (arith, decode_seq_octets-IsHeader b0 b1 v.0 v.1.0, low_six-eq-mod b2 v.1.1.0)

-- Encoding a unit that was decoded from octets gives the octets back, with the spare bits cleared:
-- so `decode` loses nothing else, and what it accepts can always be sent.
pub encode-decode :
    (bytes : List ℕ) (su : SignalUnit)
    → All IsByte bytes
    → decode bytes ≡ ok su
    → encode su ≡ ok (canonical bytes)
unfolding decode encode canonical Header.new
encode-decode [] su v h = ground arith
encode-decode (_ ∷ []) su v h = ground arith
encode-decode (_ ∷ _ ∷ []) su v h = ground arith
encode-decode (b0 ∷ b1 ∷ b2 ∷ []) su v h = ground (
  arith,
  decode_seq_octets-IsHeader b0 b1 v.0 v.1.0,
  encode_seq_octets-decode b0 b1 v.0 v.1.0,
  low_six-eq-mod b2 v.1.1.0,
)
encode-decode (b0 ∷ b1 ∷ b2 ∷ sio ∷ sif) (fisu hd) v h = ground arith
encode-decode (b0 ∷ b1 ∷ b2 ∷ sio ∷ []) (lssu hd status extended) v h = ground (
  arith,
  decode_seq_octets-IsHeader b0 b1 v.0 v.1.0,
  encode_seq_octets-decode b0 b1 v.0 v.1.0,
  low_six-eq-mod b2 v.1.1.0,
  low_three-eq-mod sio v.1.1.1.0,
  as_u8-from_u8 sio {s = status},
)
encode-decode (b0 ∷ b1 ∷ b2 ∷ sio ∷ c ∷ []) (lssu hd status extended) v h = ground (
  arith,
  decode_seq_octets-IsHeader b0 b1 v.0 v.1.0,
  encode_seq_octets-decode b0 b1 v.0 v.1.0,
  low_six-eq-mod b2 v.1.1.0,
  low_three-eq-mod sio v.1.1.1.0,
  as_u8-from_u8 sio {s = status},
)
encode-decode (b0 ∷ b1 ∷ b2 ∷ sio ∷ c ∷ d ∷ sif) (lssu hd status extended) v h = ground (
  arith,
  decode_seq_octets-IsHeader b0 b1 v.0 v.1.0,
  encode_seq_octets-decode b0 b1 v.0 v.1.0,
  low_six-eq-mod b2 v.1.1.0,
  low_three-eq-mod sio v.1.1.1.0,
  as_u8-from_u8 sio {s = status},
)
encode-decode (b0 ∷ b1 ∷ b2 ∷ sio ∷ sif) (msu hd sio2 sif2) v h = ground (
  arith,
  decode_seq_octets-IsHeader b0 b1 v.0 v.1.0,
  encode_seq_octets-decode b0 b1 v.0 v.1.0,
  low_six-eq-mod b2 v.1.1.0,
  low_six-eq-mod (length_indicator (msu hd sio2 sif2)),
)
