-- ===== src/SignalUnit/Header.antt =====
-- src/signal_unit.rs: the two sequence octets that every signal unit begins with.
use Prim.Native.Nat.{bit_and, bit_or}
use mtp.Base.{ℕ, Bool, not, ◌==◌, leb, if◌then◌else◌}
use mtp.Error.{Result, ok, err, sequence_number_out_of_range}

abbrev pub seq_modulus : ℕ
seq_modulus = 128

-- `SuHeader`: `bsn` and `fsn` are `u8`.
pub record SuHeader : Type 0 where
  pub bsn : ℕ
  pub bib : Bool
  pub fsn : ℕ
  pub fib : Bool

-- `SuHeader::new`.
unfoldable pub new : ℕ → Bool → ℕ → Bool → Result SuHeader
new bsn bib fsn fib =
    if leb seq_modulus bsn
    then err (sequence_number_out_of_range bsn)
    else if leb seq_modulus fsn
    then err (sequence_number_out_of_range fsn)
    else ok (record { bsn = bsn; bib = bib; fsn = fsn; fib = fib })

-- One octet of `encode_seq_octets`: a 7-bit number and its indicator bit.
unfoldable pub seq_octet : ℕ → Bool → ℕ
seq_octet n bit = bit_or (bit_and n 0x7f) (if bit then 0x80 else 0)

-- `SuHeader::encode_seq_octets`.
unfoldable pub encode_seq_octets : SuHeader → ℕ × ℕ
encode_seq_octets h = (seq_octet h.bsn h.bib, seq_octet h.fsn h.fib)

-- `SuHeader::decode_seq_octets`.
unfoldable pub decode_seq_octets : ℕ → ℕ → SuHeader
decode_seq_octets b0 b1 = record {
  bsn = bit_and b0 0x7f;
  bib = not (bit_and b0 0x80 == 0);
  fsn = bit_and b1 0x7f;
  fib = not (bit_and b1 0x80 == 0);
}
