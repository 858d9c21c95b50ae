-- ===== src/Python/Tests.antt =====
-- src/python.rs: objects, events and links.
use mtp.Base.{List, [], ◌∷◌, ◌≡◌, refl, arith, true, false, some, none}
use mtp.Link.Types.{Event, OutOfServiceReason}
use mtp.Link.Config.{default}
use mtp.Link.Engine
use mtp.Link.Inbound
use mtp.Link.Run.{run}
use mtp.Link.Tests.{quick, outgoing, outgoing_su, sends}
use mtp.Link.Lssu
use mtp.Link.Manage
use mtp.Link.Outbound
use mtp.SignalUnit.Build
use mtp.SignalUnit.Codec
use mtp.SignalUnit.Header
use mtp.SignalUnit.Status
use mtp.Retransmission.Tx
use mtp.Retransmission.Rx
use mtp.Text.{codes, decimal, digits, hex_octet, hex_digit}
use mtp.SignalUnit.Text.{status_text, mnemonic}
use mtp.Link.Text.{state_text}
use mtp.Python.Result.{PyError, ok, raised, ◌>>=◌, mtp2_err}
use mtp.Python.Methods
use mtp.Python.Build.{Numbers, fisu, lssu, msu}
use mtp.Python.Repr.{fisu_repr, lssu_repr, msu_repr, link_repr}
use mtp.Python.Session.{PyCall, call, session}
use mtp.Python.Sending.{session-decode}
use mtp.Python.Classes.{PyStatus, PyUnit, to_core, from_core}
use mtp.Python.Units.{encode, su_to_py, decode}
use mtp.Python.Events.{event_to_py}
use mtp.Python.Link.{Options, configured, method_of, new, poll_transmit, handle_su}
use mtp.Python.Roundtrip.{decode-encode_object}
use mtp.Python.Told.{read, read-event_to_py}
use mtp.Python.Wheel.{handle_su-poll_transmit}

abbrev unit : PyUnit
unit =
    PyUnit.lssu (record {
      status = PyStatus.sipo;
      bsn = 1;
      bib = false;
      fsn = 2;
      fib = true;
      extended = true;
    })

decode-encode_object_example : (encode unit >>= decode) ≡ ok unit
decode-encode_object_example = decode-encode_object unit (ground arith)

read-event_to_py_example :
    read (event_to_py (Event.out_of_service OutOfServiceReason.t7_expired))
    ≡ some (Event.out_of_service OutOfServiceReason.t7_expired)
read-event_to_py_example = read-event_to_py (Event.out_of_service OutOfServiceReason.t7_expired)

abbrev no_options : Options
no_options = record {
  t1 = none;
  t2 = none;
  t3 = none;
  t4_normal = none;
  t4_emergency = none;
  t6 = none;
  t7 = none;
  aerm_normal = none;
  aerm_emergency = none;
  suerm_threshold = none;
  suerm_interval = none;
  proving_attempts = none;
}

handle_su-poll_transmit_example :
    ((poll_transmit (run outgoing (Engine.new quick))).1 ≡ some (su_to_py outgoing_su))
    × ((encode (su_to_py outgoing_su) >>= λ bytes. handle_su bytes (Engine.new default))
        ≡ ok (Inbound.handle_su outgoing_su (Engine.new default)))
handle_su-poll_transmit_example =
    handle_su-poll_transmit quick outgoing outgoing_su (Engine.new default) (ground arith) sends

defaults : new "basic" false 127 8000 no_options ≡ ok (Engine.new default)
unfolding new method_of configured
defaults = refl

unknown : new "pcr2" false 127 8000 no_options ≡ raised (PyError.unknown_method "pcr2")
unfolding new method_of
unknown = refl

-- A link that is started and fed three octets that do not decode, and then an SIO.
abbrev calls : List PyCall
calls =
    PyCall.start
    ∷ PyCall.handle_su (0 ∷ 0 ∷ 7 ∷ [])
    ∷ PyCall.handle_su (0xff ∷ 0xff ∷ 1 ∷ 0 ∷ [])
    ∷ []

-- The SIN that it sends.
abbrev sin : PyUnit
sin = PyUnit.lssu (record {
  status = PyStatus.sin;
  bsn = 127;
  bib = true;
  fsn = 127;
  fib = true;
  extended = false;
})

sent : (poll_transmit (session calls (Engine.new default))).1 ≡ some sin
unfolding session call poll_transmit su_to_py from_core handle_su Methods.start mtp2_err
    Codec.decode Header.decode_seq_octets Status.from_u8 Engine.new Manage.start Manage.begin
    Engine.stop_all_timers Tx.new Rx.new Inbound.handle_su Inbound.monitor Inbound.dispatch
    Lssu.handle_lssu Lssu.lssu_at Lssu.upgrade Lssu.from_not_aligned Outbound.poll_transmit
    Outbound.choose Outbound.finish Outbound.guard_t7 Outbound.lssu Outbound.header_for_control
    Build.lssu
sent = refl

session-decode_example : (encode sin >>= decode) ≡ ok sin
session-decode_example = session-decode default calls sin (ground arith) sent

-- The texts of the objects.
abbrev numbers : Numbers
numbers = record { bsn = some 1; bib = some false; fsn = none; fib = none }

reprs :
    (fisu_repr (fisu numbers) ≡ codes "Fisu(bsn=1, bib=0, fsn=127, fib=1)")
    × (lssu_repr (lssu PyStatus.sios numbers none) ≡ codes "Lssu(SIOS, bsn=1, fsn=127)")
    × (msu_repr (msu 0x83 (1 ∷ 2 ∷ []) numbers) ≡ codes "Msu(sio=0x83, sif_len=2, bsn=1, fsn=0)")
    × (link_repr (Engine.new default) ≡ codes "Link(state=Out of Service)")
unfolding fisu_repr lssu_repr msu_repr link_repr state_text status_text mnemonic to_core decimal
    digits hex_octet hex_digit fisu lssu msu Engine.new
reprs = (refl, refl, refl, refl)
