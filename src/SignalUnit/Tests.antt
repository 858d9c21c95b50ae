-- ===== src/SignalUnit/Tests.antt =====
-- src/signal_unit.rs: signal units on the wire, and runs of the codec.
use mtp.Base.{ℕ, ◌≡◌, ◌≢◌, ◌↔◌, refl, arith, true, List, [], ◌∷◌, All, IsByte, length, ◌==◌}
use mtp.Error.{ok, ◌>>=◌}
use mtp.SignalUnit.Status.{from_u8}
use mtp.SignalUnit.Header.{SuHeader, encode_seq_octets, decode_seq_octets, seq_octet}
use mtp.SignalUnit.Header
use mtp.SignalUnit.Unit.{SignalUnit, lssu, msu}
use mtp.SignalUnit.Build
use mtp.SignalUnit.Codec.{encode, decode}
use mtp.SignalUnit.Roundtrip.{decode-encode}
use mtp.SignalUnit.Reencode.{canonical, encode-decode}
use mtp.SignalUnit.Accept.{is_ok, IsFrame, decode-IsFrame_iff}
use mtp.Text.{codes, decimal, digits, hex_octet, hex_digit}
use mtp.SignalUnit.Text.{unit_text, header_text}
use mtp.SignalUnit.Readable.{read_unit, summary, read_unit-text}
use mtp.SignalUnit.Short.{short_msu_misread}

abbrev header : SuHeader
header = record { bsn = 5; bib = true; fsn = 6; fib = true }

abbrev unit : SignalUnit
unit = msu header 0x83 (1 ∷ 2 ∷ 3 ∷ [])

-- BIB and BSN, FIB and FSN, the length indicator, the service information octet and field.
abbrev wire : List ℕ
wire = 0x85 ∷ 0x86 ∷ 4 ∷ 0x83 ∷ 1 ∷ 2 ∷ 3 ∷ []

-- The same with both spare bits of the third octet set.
abbrev wire_spare : List ℕ
wire_spare = 0x85 ∷ 0x86 ∷ 0xC4 ∷ 0x83 ∷ 1 ∷ 2 ∷ 3 ∷ []

encode-unit : encode unit ≡ ok wire
unfolding encode Header.new encode_seq_octets seq_octet
encode-unit = refl

decode-wire : decode wire_spare ≡ ok unit
unfolding decode decode_seq_octets
decode-wire = refl

bytes : All IsByte wire_spare
bytes = ground arith

decode-encode_example : (encode unit >>= decode) ≡ ok unit
decode-encode_example = decode-encode unit (ground arith)

read_unit-text_example : read_unit (unit_text unit) ≡ summary unit
read_unit-text_example = read_unit-text unit (ground arith)

unit-text : unit_text unit ≡ codes "MSU [bsn=5 bib=1 fsn=6 fib=1] sio=0x83 sif_len=3"
unfolding unit_text header_text decimal digits hex_octet hex_digit
unit-text = refl

encode-decode_example : encode unit ≡ ok (canonical wire_spare)
encode-decode_example = encode-decode wire_spare unit bytes decode-wire

decode-IsFrame_iff_example : (is_ok (decode wire_spare) ≡ true) ↔ IsFrame wire_spare
decode-IsFrame_iff_example = decode-IsFrame_iff wire_spare bytes

short_msu_misread_example :
    (Build.msu header 1 [] ≡ ok (msu header 1 []))
    × ((encode (msu header 1 []) >>= decode)
        ≡ (from_u8 1 >>= λ status. ok (lssu header status (length {A = ℕ} [] == 1))))
    × ((encode (msu header 1 []) >>= decode) ≢ ok (msu header 1 []))
short_msu_misread_example = short_msu_misread header 1 [] (ground arith) (ground arith)
