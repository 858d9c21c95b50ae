-- ===== src/SignalUnit/Codec.antt =====
-- src/signal_unit.rs: `SignalUnit::encode` and `SignalUnit::decode`. A slice of bytes is a list;
-- an index that the source guards by a length test is read by a pattern.
use Prim.Native.Nat.{bit_and}
use mtp.Base.{ℕ, ◌+◌, not, ◌&&◌, List, [], ◌∷◌, length, ◌==◌, ltb, if◌then◌else◌}
use mtp.Error.{Result, ok, err, too_short, length_indicator_mismatch, msu_too_large, ◌>>=◌, ◌>>◌}
use mtp.SignalUnit.Status.{as_u8, from_u8}
use mtp.SignalUnit.Header.{SuHeader, encode_seq_octets, decode_seq_octets}
use mtp.SignalUnit.Header
use mtp.SignalUnit.Unit.{
  SignalUnit, fisu, lssu, msu, header, length_indicator, li_fisu, li_lssu_one, li_lssu_two, li_max,
  max_msu_body,
}

-- The octets after the length indicator.
encode_body : SignalUnit → Result (List ℕ)
encode_body (fisu _) = ok []
encode_body (lssu _ status extended) =
    ok (bit_and (as_u8 status) 0x07 ∷ (if extended then 0 ∷ [] else []))
encode_body (msu _ sio sif) =
    let body = 1 + length sif in
    if ltb max_msu_body body then err (msu_too_large body) else ok (sio ∷ sif)

-- `SignalUnit::encode`.
unfoldable pub encode : SignalUnit → Result (List ℕ)
unfolding encode_body header length_indicator
encode su = do
  let h = header su
  Header.new h.bsn h.bib h.fsn h.fib
  let (b0, b1) = encode_seq_octets h
  let li = length_indicator su
  body ← encode_body su
  ok (b0 ∷ b1 ∷ bit_and li 0x3f ∷ body)

-- The arm `LI_LSSU_ONE | LI_LSSU_TWO`: `want` is at least 1, so an empty body fails the test.
decode_lssu : SuHeader → ℕ → List ℕ → Result SignalUnit
decode_lssu h li [] = err (length_indicator_mismatch li 0)
decode_lssu h li (b ∷ bs) =
    let octets = length (b ∷ bs) in
    if not (octets == li)
    then err (length_indicator_mismatch li octets)
    else (from_u8 b >>= λ status. ok (lssu h status (li == li_lssu_two)))

-- The catch-all arm; `actual` is the length of the whole unit.
decode_msu : SuHeader → ℕ → ℕ → List ℕ → Result SignalUnit
decode_msu h li actual [] = err (too_short 4 actual)
decode_msu h li actual (sio ∷ sif) =
    let octets = length (sio ∷ sif) in
    let total = 1 + length sif in
    if ltb li li_max && not (octets == li)
    then err (length_indicator_mismatch li octets)
    else if (li == li_max) && ltb octets li_max
    then err (length_indicator_mismatch li octets)
    else if ltb max_msu_body total
    then err (msu_too_large total)
    else ok (msu h sio sif)

-- The arm `LI_FISU`.
decode_fisu : SuHeader → ℕ → List ℕ → Result SignalUnit
decode_fisu h li [] = ok (fisu h)
decode_fisu h li (b ∷ bs) = err (length_indicator_mismatch li (length (b ∷ bs)))

-- The `match` of `decode` on the length indicator.
decode_body : SuHeader → ℕ → ℕ → List ℕ → Result SignalUnit
unfolding decode_fisu decode_lssu decode_msu
decode_body h li actual body =
    if li == li_fisu
    then decode_fisu h li body
    else if li == li_lssu_one
    then decode_lssu h li body
    else if li == li_lssu_two
    then decode_lssu h li body
    else decode_msu h li actual body

-- `SignalUnit::decode`.
unfoldable pub decode : List ℕ → Result SignalUnit
unfolding decode_body
decode [] = err (too_short 3 0)
decode (_ ∷ []) = err (too_short 3 1)
decode (_ ∷ _ ∷ []) = err (too_short 3 2)
decode (b0 ∷ b1 ∷ b2 ∷ body) =
    decode_body (decode_seq_octets b0 b1) (bit_and b2 0x3f) (length (b0 ∷ b1 ∷ b2 ∷ body)) body
