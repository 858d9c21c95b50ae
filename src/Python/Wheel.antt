-- ===== src/Python/Wheel.antt =====
-- src/python.rs: two `Link` objects joined by octets.
use mtp.Base.{ℕ, ◌≡◌, refl, ◌∙◌, ap, arith, List, some, All}
use mtp.Error.{Result}
use mtp.Error
use mtp.SignalUnit.Unit.{SignalUnit}
use mtp.SignalUnit.Codec
use mtp.SignalUnit.Roundtrip.{decode-encode}
use mtp.Link.Config.{Mtp2Config}
use mtp.Link.Engine.{Mtp2Link}
use mtp.Link.Engine
use mtp.Link.Outbound
use mtp.Link.Inbound
use mtp.Link.Run.{Call, run}
use mtp.Link.Wire.{IsProper}
use mtp.Link.Wire.Sent.{poll_transmit-IsValid}
use mtp.Python.Result.{ok, ◌>>=◌, mtp2_err}
use mtp.Python.Units.{encode, su_to_py}
use mtp.Python.Link.{map_option, poll_transmit, handle_su}
use mtp.Python.Roundtrip.{encode-su_to_py}

handled :
    (r : Result (List ℕ)) {su : SignalUnit} (peer : Mtp2Link)
    → Error.◌>>=◌ r Codec.decode ≡ Error.ok su
    → (mtp2_err r >>= λ bytes. handle_su bytes peer) ≡ ok (Inbound.handle_su su peer)
unfolding mtp2_err handle_su
handled (Error.ok bs) peer e = rw e refl
handled (Error.err f) peer e = ground arith

-- What a `Link` object sends after any sequence of calls, provided that MSUs with at least two
-- octets are submitted and that received units fit the wire format, is encoded without an
-- exception, and another `Link` object that is fed the octets does just what the core does with
-- the signal unit.
pub handle_su-poll_transmit :
    (config : Mtp2Config) (calls : List Call) (su : SignalUnit) (peer : Mtp2Link)
    → All IsProper calls
    → (Outbound.poll_transmit (run calls (Engine.new config))).1 ≡ some su
    → ((poll_transmit (run calls (Engine.new config))).1 ≡ some (su_to_py su))
      × ((encode (su_to_py su) >>= λ bytes. handle_su bytes peer) ≡ ok (Inbound.handle_su su peer))
handle_su-poll_transmit config calls su peer p e =
    let v = poll_transmit-IsValid config calls su p e in
    (
      unfold poll_transmit in ap (map_option su_to_py) e,
      ap (λ r. r >>= λ bytes. handle_su bytes peer) (encode-su_to_py su v)
          ∙ handled (Codec.encode su) peer (decode-encode su v),
    )
