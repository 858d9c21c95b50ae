-- ===== src/SignalUnit/Readable.antt =====
-- src/signal_unit.rs: what the text of a signal unit tells.
use mtp.Base.{
  ℕ, ◌+◌, ◌-◌, ◌*◌, ◌/◌, ◌%◌, ◌<◌, ◌≡◌, refl, sym, ◌∙◌, ap, ap₂, arith, IsByte, Bool, true, false,
  not, List, [], ◌∷◌, ◌++◌, length, drop, ◌==◌, ltb, if◌then◌else◌, append_assoc, append-nil,
}
use mtp.Text.{codes, decimal, hex_digit, hex_octet, as_number}
use mtp.Text.Read.{read_from, Ends, read_from-decimal}
use mtp.SignalUnit.Status.{StatusIndication}
use mtp.SignalUnit.Header.{SuHeader}
use mtp.SignalUnit.Unit.{SignalUnit}
use mtp.SignalUnit.Text.{mnemonic, status_text, header_text, unit_text}

-- A header that is read from the front of a text, and what follows it.
unfoldable pub read_header : List ℕ → SuHeader × List ℕ
read_header cs =
    let (bsn, cs1) = read_from 0 (drop 4 cs) in
    let (bib, cs2) = read_from 0 (drop 5 cs1) in
    let (fsn, cs3) = read_from 0 (drop 5 cs2) in
    let (fib, cs4) = read_from 0 (drop 5 cs3) in
    (record { bsn = bsn; bib = not (bib == 0); fsn = fsn; fib = not (fib == 0) }, cs4)

flag_lem : (b : Bool) → not (as_number b == 0) ≡ b
flag_lem true = refl
flag_lem false = refl

-- A header's text, with what follows it at the end.
spread : SuHeader → List ℕ → List ℕ
spread h cs =
    codes "bsn="
    ++ (decimal h.bsn
        ++ (codes " bib="
            ++ (decimal (as_number h.bib)
                ++ (codes " fsn="
                    ++ (decimal h.fsn ++ (codes " fib=" ++ (decimal (as_number h.fib) ++ cs)))))))

header_text-spread : (h : SuHeader) (cs : List ℕ) → header_text h ++ cs ≡ spread h cs
unfolding header_text spread
header_text-spread h cs = simp append_assoc

pub read_header-text :
    (h : SuHeader) (cs : List ℕ) → Ends cs → read_header (header_text h ++ cs) ≡ (h, cs)
unfolding read_header spread
read_header-text h cs e =
    let last = decimal (as_number h.fib) ++ cs in
    let third = decimal h.fsn ++ (codes " fib=" ++ last) in
    let second = decimal (as_number h.bib) ++ (codes " fsn=" ++ third) in
    rw (header_text-spread h cs) (
      rw (read_from-decimal h.bsn (codes " bib=" ++ second) refl) (
        rw (read_from-decimal (as_number h.bib) (codes " fsn=" ++ third) refl) (
          rw (read_from-decimal h.fsn (codes " fib=" ++ last) refl) (
            rw (read_from-decimal (as_number h.fib) cs e)
              (rw (flag_lem h.bib, flag_lem h.fib) refl)))))

-- What a text tells of a unit: of an LSSU not its size, and of an MSU not its octets.
pub data Summary : Type 0 where
  fisu : SuHeader → Summary
  lssu : SuHeader → StatusIndication → Summary
  msu : SuHeader → ℕ → ℕ → Summary

abbrev pub summary : SignalUnit → Summary
summary (SignalUnit.fisu h) = Summary.fisu h
summary (SignalUnit.lssu h status _) = Summary.lssu h status
summary (SignalUnit.msu h sio sif) = Summary.msu h sio (length sif)

-- The mnemonic of a status indication at the front of a text, by its third letter, and what follows.
abbrev status_at : ℕ → ℕ → List ℕ → StatusIndication × List ℕ
status_at third fourth cs =
    if third == b'N'
    then (StatusIndication.normal_alignment, drop 3 cs)
    else if third == b'E'
    then (StatusIndication.emergency_alignment, drop 3 cs)
    else if third == b'B'
    then (StatusIndication.busy, drop 3 cs)
    else if third == b'P'
    then (StatusIndication.processor_outage, drop 4 cs)
    else if fourth == b'S'
    then (StatusIndication.out_of_service, drop 4 cs)
    else (StatusIndication.out_of_alignment, drop 3 cs)

abbrev read_status : List ℕ → StatusIndication × List ℕ
read_status (a ∷ b ∷ c ∷ d ∷ cs) = status_at c d (a ∷ b ∷ c ∷ d ∷ cs)
read_status cs = (StatusIndication.out_of_alignment, cs)

read_status-text :
    (s : StatusIndication) (cs : List ℕ)
    → read_status (status_text s ++ (codes " " ++ cs)) ≡ (s, codes " " ++ cs)
unfolding status_text mnemonic
read_status-text StatusIndication.out_of_alignment cs = refl
read_status-text StatusIndication.normal_alignment cs = refl
read_status-text StatusIndication.emergency_alignment cs = refl
read_status-text StatusIndication.out_of_service cs = refl
read_status-text StatusIndication.processor_outage cs = refl
read_status-text StatusIndication.busy cs = refl

abbrev unhex : ℕ → ℕ
unhex c = if ltb c 58 then c - 48 else c - 87

unhex-hex_digit : (n : ℕ) → n < 16 → unhex (hex_digit n) ≡ n
unfolding hex_digit
unhex-hex_digit n small = ground arith

abbrev read_msu : SuHeader → List ℕ → Summary
read_msu h (a ∷ b ∷ cs) = Summary.msu h (unhex a * 16 + unhex b) (read_from 0 (drop 9 cs)).0
read_msu h cs = Summary.msu h 0 0

-- A text is read.
unfoldable pub read_unit : List ℕ → Summary
read_unit [] = Summary.msu (read_header []).0 0 0
read_unit (c ∷ cs) =
    let (h, _) = read_header (drop 5 cs) in
    let (status, cs1) = read_status (drop 4 cs) in
    let (h1, _) = read_header (drop 2 cs1) in
    let (h2, cs2) = read_header (drop 4 cs) in
    if c == b'F'
    then Summary.fisu h
    else if c == b'L'
    then Summary.lssu h1 status
    else read_msu h2 (drop 8 cs2)

-- The SIO of an MSU is an octet.
abbrev pub HasByte : SignalUnit → Type 0
HasByte (SignalUnit.msu h sio sif) = IsByte sio
HasByte _ = Unit

-- The texts of the units, with what follows each part at its end.
fisu-spread :
    (h : SuHeader) → unit_text (SignalUnit.fisu h) ≡ codes "FISU [" ++ (header_text h ++ codes "]")
unfolding unit_text
fisu-spread h = append_assoc (codes "FISU [") (header_text h) (codes "]")

lssu-spread :
    (h : SuHeader) (s : StatusIndication) (x : Bool)
    → unit_text (SignalUnit.lssu h s x)
      ≡ codes "LSSU "
        ++ (status_text s ++ (codes " " ++ (codes "[" ++ (header_text h ++ codes "]"))))
unfolding unit_text
lssu-spread h s x = simp append_assoc

msu_tail : ℕ → List ℕ → List ℕ
msu_tail sio sif = codes "] sio=" ++ (hex_octet sio ++ (codes " sif_len=" ++ decimal (length sif)))

msu-spread :
    (h : SuHeader) (sio : ℕ) (sif : List ℕ)
    → unit_text (SignalUnit.msu h sio sif) ≡ codes "MSU [" ++ (header_text h ++ msu_tail sio sif)
unfolding unit_text msu_tail
msu-spread h sio sif = simp append_assoc

read_msu-tail :
    (h : SuHeader) (sio : ℕ) (sif : List ℕ)
    → IsByte sio
    → read_msu h (drop 8 (msu_tail sio sif)) ≡ Summary.msu h sio (length sif)
unfolding msu_tail hex_octet
read_msu-tail h sio sif v =
    let high = unhex-hex_digit (sio / 16) (omega arith) in
    let low = unhex-hex_digit (sio % 16) (omega arith) in
    let number : (read_from 0 (decimal (length sif))).0 ≡ length sif =
      ap (λ cs. (read_from 0 cs).0) (sym (append-nil (decimal (length sif))))
      ∙ ap (λ r. r.0) (read_from-decimal (length sif) [] tt) in
    rw (high, low, number)
      (ap (λ k. Summary.msu h k (length sif))
        (let e : sio / 16 * 16 + sio % 16 ≡ sio = omega arith in e))

-- The text of a signal unit, the SIO of which is an octet, tells its kind and its header, of an LSSU
-- the status and of an MSU the SIO and the length of the service information: they can be read back.
pub read_unit-text : (su : SignalUnit) → HasByte su → read_unit (unit_text su) ≡ summary su
unfolding read_unit
read_unit-text (SignalUnit.fisu h) v =
    ap read_unit (fisu-spread h) ∙ ap (λ r. Summary.fisu r.0) (read_header-text h (codes "]") refl)
read_unit-text (SignalUnit.lssu h s x) v =
    let cs = codes "[" ++ (header_text h ++ codes "]") in
    ap read_unit (lssu-spread h s x)
    ∙ ap₂ (λ r q. Summary.lssu r.0 q)
        (ap (λ r. read_header (drop 2 r.1)) (read_status-text s cs)
          ∙ read_header-text h (codes "]") refl)
        (ap (λ r. r.0) (read_status-text s cs))
read_unit-text (SignalUnit.msu h sio sif) v =
    ap read_unit (msu-spread h sio sif)
    ∙ ap (λ r. read_msu r.0 (drop 8 r.1))
        (read_header-text h (msu_tail sio sif) (unfold msu_tail hex_octet in refl))
    ∙ read_msu-tail h sio sif v
