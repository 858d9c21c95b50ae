-- ===== src/Link/Engine.antt =====
-- src/link.rs: the link engine's state, its construction, and the helpers that change the state.
-- A method with `&mut self` returns the new link. `VecDeque` is a list, its front first.
use mtp.Base.{ℕ, ◌+◌, Bool, false, Option, none, some, List, [], ◌∷◌, ◌++◌, u32, ltb, if◌then◌else◌}
use mtp.Monitor.Aerm.{Aerm, restart}
use mtp.Monitor.Aerm
use mtp.Monitor.Suerm.{Suerm, reset}
use mtp.Monitor.Suerm
use mtp.Retransmission.Tx.{TxControl}
use mtp.Retransmission.Tx
use mtp.Retransmission.Rx.{RxControl}
use mtp.Retransmission.Rx
use mtp.Link.Types.{Mtp2State, OutOfServiceReason, AlignmentFailure, Event}
use mtp.Link.Config.{Mtp2Config}

-- `Mtp2Link`. A timer holds its remaining ticks, and is `none` while it is stopped.
pub record Mtp2Link : Type 0 where
  pub config : Mtp2Config
  pub state : Mtp2State
  pub active : Bool
  pub emergency : Bool
  pub local_processor_outage : Bool
  pub remote_processor_outage : Bool
  pub local_busy : Bool
  pub remote_busy : Bool
  pub proving_attempt : ℕ
  pub tx : TxControl
  pub rx : RxControl
  pub aerm : Aerm
  pub suerm : Suerm
  pub t1 : Option ℕ
  pub t2 : Option ℕ
  pub t3 : Option ℕ
  pub t4 : Option ℕ
  pub t6 : Option ℕ
  pub t7 : Option ℕ
  pub events : List Event

-- `Mtp2Link::new`.
unfoldable pub new : Mtp2Config → Mtp2Link
new c = record {
  config = c;
  state = Mtp2State.out_of_service;
  active = false;
  emergency = c.emergency;
  local_processor_outage = false;
  remote_processor_outage = false;
  local_busy = false;
  remote_busy = false;
  proving_attempt = 0;
  tx = Tx.new c.method;
  rx = Rx.new c.method;
  aerm = Aerm.new c.aerm_threshold_normal;
  suerm = Suerm.new c.suerm_threshold c.suerm_decrement_interval;
  t1 = none;
  t2 = none;
  t3 = none;
  t4 = none;
  t6 = none;
  t7 = none;
  events = [];
}

-- `Mtp2Link::emit`.
unfoldable pub emit : Event → Mtp2Link → Mtp2Link
emit e l = record l { events = l.events ++ (e ∷ []) }

-- `Mtp2Link::poll_event`.
unfoldable pub poll_event : Mtp2Link → Mtp2Link × Option Event
poll_event l = elim l.events [ [] ↦ (l, none) | e ∷ es ↦ (record l { events = es }, some e) ]

-- `Mtp2Link::stop_all_timers`.
unfoldable pub stop_all_timers : Mtp2Link → Mtp2Link
stop_all_timers l = record l { t1 = none; t2 = none; t3 = none; t4 = none; t6 = none; t7 = none }

-- `Mtp2Link::enter_proving`. The attempt counter is a `u32`.
unfoldable pub enter_proving : Mtp2Link → Mtp2Link
enter_proving l = record l {
  state = Mtp2State.proving;
  proving_attempt = u32 (l.proving_attempt + 1);
  aerm =
      restart
        (if l.emergency then l.config.aerm_threshold_emergency else l.config.aerm_threshold_normal)
        l.aerm;
  t4 = some (if l.emergency then l.config.t4_proving_emergency else l.config.t4_proving_normal);
}

-- `Mtp2Link::proving_succeeded`.
unfoldable pub proving_succeeded : Mtp2Link → Mtp2Link
proving_succeeded l =
    let l' = record l { t4 = none } in
    if l'.local_processor_outage
    then record l' { state = Mtp2State.aligned_not_ready }
    else record l' { state = Mtp2State.aligned_ready; t1 = some l'.config.t1_aligned_ready }

-- `Mtp2Link::enter_in_service`.
unfoldable pub enter_in_service : Mtp2Link → Mtp2Link
enter_in_service l =
    emit Event.in_service
      (record l { t1 = none; suerm = reset l.suerm; state = Mtp2State.in_service })

-- `Mtp2Link::fail_alignment`.
unfoldable pub fail_alignment : AlignmentFailure → Mtp2Link → Mtp2Link
fail_alignment failure l =
    emit (Event.alignment_failed failure)
      (record (stop_all_timers l) { state = Mtp2State.out_of_service })

-- `Mtp2Link::fail_out_of_service`.
unfoldable pub fail_out_of_service : OutOfServiceReason → Mtp2Link → Mtp2Link
fail_out_of_service reason l = emit (Event.out_of_service reason) (record (stop_all_timers l) {
  remote_processor_outage = false;
  remote_busy = false;
  local_busy = false;
  state = Mtp2State.out_of_service;
})

-- `Mtp2Link::proving_aborted`.
unfoldable pub proving_aborted : Mtp2Link → Mtp2Link
proving_aborted l =
    if ltb l.proving_attempt l.config.proving_attempts
    then record l { t4 = none; state = Mtp2State.aligned; t3 = some l.config.t3_aligned }
    else fail_alignment AlignmentFailure.aerm_tripped l
