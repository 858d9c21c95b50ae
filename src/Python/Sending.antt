-- ===== src/Python/Sending.antt =====
-- src/python.rs: what a `Link` object sends after any sequence of method calls.
use mtp.Base.{
  ℕ, ◌≤◌, ◌≡◌, refl, sym, ◌∙◌, ap, subst, arith, List, [], ◌∷◌, ◌++◌, length, All, IsByte, Option,
  none, some,
}
use mtp.Error.{Result}
use mtp.Error
use mtp.SignalUnit.Unit.{SignalUnit}
use mtp.SignalUnit.Codec
use mtp.SignalUnit.Reencode.{decode-IsValid}
use mtp.Link.Config.{Mtp2Config}
use mtp.Link.Engine.{Mtp2Link}
use mtp.Link.Engine
use mtp.Link.Outbound
use mtp.Link.Run.{Call, run}
use mtp.Link.Wire.{IsProper}
use mtp.Link.Wire.Sent.{poll_transmit-IsValid}
use mtp.SignalUnit.Roundtrip.{decode-encode}
use mathlib.Core.Option.{some-injective, none-ne-some}
use mtp.Python.Result.{ok, ◌>>=◌, mtp2_err}
use mtp.Python.Classes.{PyUnit}
use mtp.Python.Units.{encode, decode, su_to_py}
use mtp.Python.Link.{map_option, poll_transmit}
use mtp.Python.Roundtrip.{encode-su_to_py}
use mtp.Python.Session.{PyCall, session, decoded, core_calls, all_core_calls, session-run}

-- MSUs have at least two octets of service information, and what is fed in are octets.
abbrev pub IsFed : PyCall → Type 0
IsFed (PyCall.submit_msu sio sif) = 2 ≤ length sif
IsFed (PyCall.handle_su bytes) = All IsByte bytes
IsFed _ = Unit

decoded-IsProper :
    (bytes : List ℕ) (r : Result SignalUnit)
    → Codec.decode bytes ≡ r
    → All IsByte bytes
    → All IsProper (decoded r)
decoded-IsProper bytes (Error.ok su) e h = (decode-IsValid bytes su h e, tt)
decoded-IsProper bytes (Error.err _) e h = tt

core_calls-IsProper : (c : PyCall) → IsFed c → All IsProper (core_calls c)
unfolding core_calls
core_calls-IsProper (PyCall.submit_msu sio sif) h = (h, tt)
core_calls-IsProper (PyCall.handle_su bytes) h = decoded-IsProper bytes _ refl h
core_calls-IsProper c h = (tt, tt)

All-append {ℓ κ} :
    {A : Type ℓ} (P : A → Type κ) (xs ys : List A) → All P xs → All P ys → All P (xs ++ ys)
All-append P [] ys h k = k
All-append P (x ∷ xs) ys h k = (h.0, All-append P xs ys h.1 k)

all_core_calls-IsProper : (cs : List PyCall) → All IsFed cs → All IsProper (all_core_calls cs)
unfolding all_core_calls
all_core_calls-IsProper [] h = tt
all_core_calls-IsProper (c ∷ cs) h =
    All-append IsProper (core_calls c) (all_core_calls cs) (core_calls-IsProper c h.0)
      (all_core_calls-IsProper cs h.1)

returned :
    (r : Result (List ℕ)) (su : SignalUnit)
    → Error.◌>>=◌ r Codec.decode ≡ Error.ok su
    → (mtp2_err r >>= decode) ≡ ok (su_to_py su)
unfolding mtp2_err decode
returned (Error.ok bs) su e = rw e refl
returned (Error.err f) su e = ground arith

-- What Python is given of a unit of the core.
given_lem :
    (config : Mtp2Config) (calls : List Call) (o : Option SignalUnit) (u : PyUnit)
    → All IsProper calls
    → (Outbound.poll_transmit (run calls (Engine.new config))).1 ≡ o
    → map_option su_to_py o ≡ some u
    → (encode u >>= decode) ≡ ok u
given_lem config calls none u p e f = absurd (none-ne-some u f)
given_lem config calls (some su) u p e f =
    let v = poll_transmit-IsValid config calls su p e in
    subst (λ k. (encode k >>= decode) ≡ ok k) (some-injective _ _ f)
      (ap (λ r. r >>= decode) (encode-su_to_py su v)
        ∙ returned (Codec.encode su) su (decode-encode su v))

-- Whatever octets a `Link` object is fed, and whatever else is called on it, provided that MSUs with at
-- least two octets of service information are submitted: an object that `poll_transmit` returns is
-- encoded without an exception, and `decode` gives an equal object back.
pub session-decode :
    (config : Mtp2Config) (cs : List PyCall) (u : PyUnit)
    → All IsFed cs
    → (poll_transmit (session cs (Engine.new config))).1 ≡ some u
    → (encode u >>= decode) ≡ ok u
unfolding poll_transmit
session-decode config cs u h e =
    given_lem config (all_core_calls cs) _ u (all_core_calls-IsProper cs h) refl (
      ap (λ l. map_option su_to_py (Outbound.poll_transmit l).1)
        (sym (session-run cs (Engine.new config)))
      ∙ e)
