-- ===== src/Python/Link.antt =====
-- src/python.rs: the class `Link`.
use Prim.Native.String.{String}
use text.Mathlib.Text.{◌==◌}
use mtp.Base.{ℕ, Bool, List, Option, none, some, if◌then◌else◌}
use mtp.SignalUnit.Codec
use mtp.Retransmission.Method.{RetransmissionMethod}
use mtp.Link.Config.{Mtp2Config}
use mtp.Link.Config
use mtp.Link.Engine.{Mtp2Link}
use mtp.Link.Engine
use mtp.Link.Manage
use mtp.Link.Outbound
use mtp.Link.Inbound
use mtp.Python.Result.{PyError, PyResult, ok, raised, ◌>>=◌, mtp2_err}
use mtp.Python.Classes.{PyUnit}
use mtp.Python.Units.{su_to_py}
use mtp.Python.Events.{PyEvent, event_to_py}

-- The optional keyword arguments of `Link`.
pub record Options : Type 0 where
  pub t1 : Option ℕ
  pub t2 : Option ℕ
  pub t3 : Option ℕ
  pub t4_normal : Option ℕ
  pub t4_emergency : Option ℕ
  pub t6 : Option ℕ
  pub t7 : Option ℕ
  pub aerm_normal : Option ℕ
  pub aerm_emergency : Option ℕ
  pub suerm_threshold : Option ℕ
  pub suerm_interval : Option ℕ
  pub proving_attempts : Option ℕ

-- `Option::unwrap_or`.
abbrev pub unwrap_or {ℓ} : {A : Type ℓ} → Option A → A → A
unwrap_or none d = d
unwrap_or (some a) d = a

unfoldable pub configured : RetransmissionMethod → Bool → Options → Mtp2Config
configured method emergency o =
    let d = Config.default in
    record {
      method = method;
      emergency = emergency;
      t1_aligned_ready = unwrap_or o.t1 d.t1_aligned_ready;
      t2_not_aligned = unwrap_or o.t2 d.t2_not_aligned;
      t3_aligned = unwrap_or o.t3 d.t3_aligned;
      t4_proving_normal = unwrap_or o.t4_normal d.t4_proving_normal;
      t4_proving_emergency = unwrap_or o.t4_emergency d.t4_proving_emergency;
      t6_remote_congestion = unwrap_or o.t6 d.t6_remote_congestion;
      t7_excessive_delay = unwrap_or o.t7 d.t7_excessive_delay;
      aerm_threshold_normal = unwrap_or o.aerm_normal d.aerm_threshold_normal;
      aerm_threshold_emergency = unwrap_or o.aerm_emergency d.aerm_threshold_emergency;
      suerm_threshold = unwrap_or o.suerm_threshold d.suerm_threshold;
      suerm_decrement_interval = unwrap_or o.suerm_interval d.suerm_decrement_interval;
      proving_attempts = unwrap_or o.proving_attempts d.proving_attempts;
    }

-- The `match` on the method's name.
unfoldable pub method_of : String → ℕ → ℕ → PyResult RetransmissionMethod
method_of name n1 n2 =
    if name == "basic"
    then ok RetransmissionMethod.basic
    else if name == "pcr"
    then ok (RetransmissionMethod.pcr (record { n1 = n1; n2 = n2 }))
    else raised (PyError.unknown_method name)

-- `PyLink::new`.
unfoldable pub new : String → Bool → ℕ → ℕ → Options → PyResult Mtp2Link
new method emergency n1 n2 o =
    method_of method n1 n2 >>= λ m. ok (Engine.new (configured m emergency o))

-- `PyLink::submit_msu`.
unfoldable pub submit_msu : ℕ → List ℕ → Mtp2Link → PyResult Mtp2Link
submit_msu sio sif l = mtp2_err (Manage.submit_msu sio sif l)

abbrev pub map_option {ℓ κ} : {A : Type ℓ} {B : Type κ} → (A → B) → Option A → Option B
map_option f none = none
map_option f (some a) = some (f a)

-- `PyLink::poll_transmit`.
unfoldable pub poll_transmit : Mtp2Link → Mtp2Link × Option PyUnit
poll_transmit l = let (l', su) = Outbound.poll_transmit l in (l', map_option su_to_py su)

-- `PyLink::handle_su`.
unfoldable pub handle_su : List ℕ → Mtp2Link → PyResult Mtp2Link
handle_su data_ l = mtp2_err (Codec.decode data_) >>= λ su. ok (Inbound.handle_su su l)

-- `PyLink::poll_event`.
unfoldable pub poll_event : Mtp2Link → Mtp2Link × Option PyEvent
poll_event l = let (l', e) = Engine.poll_event l in (l', map_option event_to_py e)
