-- ===== src/Python/Roundtrip.antt =====
-- src/python.rs: an object is encoded and decoded as the core does it.
use mtp.Base.{ℕ, ◌≤◌, ◌<◌, ◌≡◌, refl, sym, ◌∙◌, ap, arith, Bool, List, length}
use mtp.Error.{Result}
use mtp.Error
use mtp.SignalUnit.Status.{StatusIndication}
use mtp.SignalUnit.Header.{SuHeader, seq_modulus}
use mtp.SignalUnit.Header
use mtp.SignalUnit.Unit.{SignalUnit, max_msu_body}
use mtp.SignalUnit.Build
use mtp.SignalUnit.Codec
use mtp.SignalUnit.Valid.{IsValid}
use mtp.SignalUnit.Roundtrip.{decode-encode}
use mtp.Python.Result.{ok, ◌>>=◌, mtp2_err}
use mtp.Python.Classes.{PyStatus, PyUnit, to_core, from_core}
use mtp.Python.Units.{header, encode_fisu, encode_lssu, encode_msu, encode, su_to_py, decode}

-- An object whose numbers have seven bits, and an MSU with 2 to 272 octets besides.
abbrev pub IsSendable : PyUnit → Type 0
IsSendable (PyUnit.fisu u) = (u.bsn < seq_modulus) × (u.fsn < seq_modulus)
IsSendable (PyUnit.lssu u) = (u.bsn < seq_modulus) × (u.fsn < seq_modulus)
IsSendable (PyUnit.msu u) =
    (u.bsn < seq_modulus)
    × (u.fsn < seq_modulus)
    × (2 ≤ length u.sif)
    × (length u.sif < max_msu_body)

pub from_core-to_core : (s : PyStatus) → from_core (to_core s) ≡ s
unfolding from_core to_core
from_core-to_core s = ground arith

pub to_core-from_core : (s : StatusIndication) → to_core (from_core s) ≡ s
unfolding from_core to_core
to_core-from_core s = ground arith

header-eq :
    (bsn fsn : ℕ) (bib fib : Bool)
    → bsn < seq_modulus
    → fsn < seq_modulus
    → header bsn bib fsn fib ≡ Error.ok (record { bsn = bsn; bib = bib; fsn = fsn; fib = fib })
unfolding header Header.new
header-eq bsn fsn bib fib b f = ground arith

Build-msu-eq :
    (h : SuHeader) (sio : ℕ) (sif : List ℕ)
    → length sif < max_msu_body
    → Build.msu h sio sif ≡ Error.ok (SignalUnit.msu h sio sif)
unfolding Build.msu
Build-msu-eq h sio sif s = ground arith

-- An object that stands for a unit of the core is encoded as that unit is.
pub encode-su_to_py :
    (su : SignalUnit) → IsValid su → encode (su_to_py su) ≡ mtp2_err (Codec.encode su)
unfolding encode su_to_py encode_fisu encode_lssu encode_msu
encode-su_to_py (SignalUnit.fisu h) v =
    rw (header-eq h.bsn h.fsn h.bib h.fib v.0 v.1) (unfold mtp2_err Build.fisu in refl)
encode-su_to_py (SignalUnit.lssu h s x) v = rw (header-eq h.bsn h.fsn h.bib h.fib v.0 v.1) (
    unfold mtp2_err in
    ap (λ k. mtp2_err (Codec.encode (SignalUnit.lssu h k x))) (to_core-from_core s))
encode-su_to_py (SignalUnit.msu h sio sif) v =
    rw (header-eq h.bsn h.fsn h.bib h.fib v.0.0 v.0.1)
      (unfold mtp2_err in rw (Build-msu-eq h sio sif v.2) refl)

-- The unit of the core that an object stands for.
abbrev pub core_of : PyUnit → SignalUnit
core_of (PyUnit.fisu u) =
    SignalUnit.fisu (record { bsn = u.bsn; bib = u.bib; fsn = u.fsn; fib = u.fib })
core_of (PyUnit.lssu u) =
    SignalUnit.lssu (record { bsn = u.bsn; bib = u.bib; fsn = u.fsn; fib = u.fib })
      (to_core u.status) u.extended
core_of (PyUnit.msu u) =
    SignalUnit.msu (record { bsn = u.bsn; bib = u.bib; fsn = u.fsn; fib = u.fib }) u.sio u.sif

core_of-IsValid : (u : PyUnit) → IsSendable u → IsValid (core_of u)
core_of-IsValid (PyUnit.fisu u) s = s
core_of-IsValid (PyUnit.lssu u) s = s
core_of-IsValid (PyUnit.msu u) s = ((s.0, s.1), s.2, s.3)

su_to_py-core_of : (u : PyUnit) → su_to_py (core_of u) ≡ u
unfolding su_to_py
su_to_py-core_of (PyUnit.fisu u) = refl
su_to_py-core_of (PyUnit.lssu u) =
    ap (λ s. PyUnit.lssu (record u { status = s })) (from_core-to_core u.status)
su_to_py-core_of (PyUnit.msu u) = refl

decoded :
    (r : Result (List ℕ)) {su : SignalUnit}
    → Error.◌>>=◌ r Codec.decode ≡ Error.ok su
    → (mtp2_err r >>= decode) ≡ ok (su_to_py su)
unfolding mtp2_err decode
decoded (Error.ok bs) e = rw e refl
decoded (Error.err f) e = ground arith

-- What `encode` of a Python object makes is decoded to an equal object, for each of the three classes
-- with 7-bit numbers and, for an MSU, 2 to 272 octets of service information.
pub decode-encode_object : (u : PyUnit) → IsSendable u → (encode u >>= decode) ≡ ok u
decode-encode_object u s =
    let su = core_of u in
    let v = core_of-IsValid u s in
    ap (λ k. encode k >>= decode) (sym (su_to_py-core_of u))
    ∙ ap (λ r. r >>= decode) (encode-su_to_py su v)
    ∙ decoded (Codec.encode su) (decode-encode su v)
    ∙ ap ok (su_to_py-core_of u)
