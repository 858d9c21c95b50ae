-- ===== src/Duplex/Tests.antt =====
-- src/link.rs: runs of two links.
use mtp.Base.{◌≡◌, refl, arith, true, some, List, [], ◌∷◌, ◌++◌, ℕ}
use mtp.Link.Types.{Mtp2State}
use mtp.Link.Config.{Mtp2Config, default}
use mtp.Monitor.Aerm.{restart}
use mtp.Monitor.Aerm
use mtp.Monitor.Suerm.{reset, record_su}
use mtp.Monitor.Suerm
use mtp.Retransmission.Method.{basic}
use mtp.Retransmission.Seq.{seq_forward, seq_add}
use mtp.Retransmission.Tx.{
  poll, poll_by, poll_basic, basic_from, basic_fresh, send_new, submit, on_ack, acknowledge, free,
  nack,
}
use mtp.Retransmission.Tx
use mtp.Retransmission.Rx.{on_msu}
use mtp.Retransmission.Rx
use mtp.Link.Engine.{
  Mtp2Link, new, stop_all_timers, emit, poll_event, enter_proving, proving_succeeded,
  enter_in_service,
}
use mtp.SignalUnit.Build
use mtp.SignalUnit.Codec.{encode, decode}
use mtp.SignalUnit.Header
use mtp.SignalUnit.Header.{encode_seq_octets, decode_seq_octets, seq_octet}
use mtp.SignalUnit.Status.{as_u8, from_u8}
use mtp.Link.Outbound.{
  poll_transmit, choose, finish, in_service_su, transmit_frame, frame_su, or_fisu, guard_t7,
  header_for_control,
}
use mtp.Link.Outbound
use mtp.Link.Manage.{begin, submit_msu}
use mtp.Link.Manage
use mtp.Link.Lssu.{handle_lssu, lssu_at, upgrade, from_not_aligned, from_aligned}
use mtp.Link.Traffic.{
  handle_fisu_or_msu, fisu_or_msu_at, process_in_service_su, acknowledged, end_outage, end_busy,
  deliver, sequence_check, report,
}
use mtp.Link.Inbound.{handle_su, monitor, dispatch}
use mtp.Link.Time.{tick, tick_t3, tick_t4, tick_t1, tick_t6, tick_t7, step_timer}
use mtp.Link.Run.{Call, step}
use mtp.Link.Emergency.{exchanges}
use mtp.Link.Tests.{quick}
use mtp.Duplex.{IsLocal}
use mtp.Duplex.Octets.{Port, Reach, connected}
use mtp.Duplex.Play.{
  Act, Turn, act, turn, play, play-Reach, submitted, polled, put, sent, got, taken, lost,
}
use mtp.Duplex.Quiet.{msus}
use mtp.Duplex.Order.{IsOut}
use mtp.Duplex.Stack.{reports, Delivers, octets_deliver_in_order}
use mtp.Duplex.Start.{started}
use mtp.Duplex.Up.{links_come_up}

abbrev hello : List (ℕ × List ℕ)
hello = (5, 1 ∷ 2 ∷ []) ∷ (5, 3 ∷ 4 ∷ []) ∷ []

abbrev reply : List (ℕ × List ℕ)
reply = (5, 9 ∷ 9 ∷ []) ∷ []

-- Proving of three ticks.
abbrev slow : Mtp2Config
slow = record quick { t4_proving_normal = 3 }

links_come_up_example :
    let (a, b) = exchanges 7 (started quick hello, started slow reply) in
    (a.state ≡ Mtp2State.in_service)
    × (b.state ≡ Mtp2State.in_service)
    × (msus b.events ≡ hello)
    × (msus a.events ≡ reply)
links_come_up_example =
    links_come_up 1 1 2 quick slow hello reply (ground arith) (ground arith) (ground arith)
      (ground arith)

-- A link that proves for one tick.
abbrev blank : Mtp2Link
blank = new (record default { t4_proving_normal = 1 })

blank-IsOut : IsOut basic blank
unfolding new
blank-IsOut = record { state = refl; method = refl; events = refl }

-- Both links are aligned: SIO, SIN and FISUs go to and fro. Then one sends two MSUs, the second of
-- which is lost.
abbrev to_and_fro : List Turn
to_and_fro =
    Turn.left Act.transmits
    ∷ Turn.right Act.transmits
    ∷ Turn.left Act.receives
    ∷ Turn.right Act.receives
    ∷ []

abbrev turns : List Turn
turns =
    to_and_fro
    ++ to_and_fro
    ++ (Turn.left (Act.calls Call.tick IsLocal.tick)
        ∷ Turn.right (Act.calls Call.tick IsLocal.tick)
        ∷ Turn.left (Act.submits 5 (1 ∷ 2 ∷ []))
        ∷ Turn.left (Act.submits 5 (3 ∷ 4 ∷ []))
        ∷ [])
    ++ to_and_fro
    ++ (Turn.left Act.transmits
        ∷ Turn.right Act.receives
        ∷ Turn.left Act.transmits
        ∷ Turn.right Act.loses
        ∷ Turn.right Act.polls_event
        ∷ [])

abbrev met : Port × Port
met = play turns (connected blank, connected blank)

octets_deliver_in_order_example : Delivers met.0 met.1 × Delivers met.1 met.0
octets_deliver_in_order_example =
    octets_deliver_in_order basic blank blank met.0 met.1 blank-IsOut blank-IsOut (
      play-Reach (connected blank) (connected blank) turns (connected blank, connected blank)
        Reach.here)

arrived :
    (met.0.submitted ≡ hello)
    × (reports met.1 ≡ (5, 1 ∷ 2 ∷ []) ∷ [])
    × (met.1.link.state ≡ Mtp2State.in_service)
unfolding msus play turn act submitted polled put sent got taken lost encode encode_seq_octets
    seq_octet decode decode_seq_octets from_u8 as_u8 Header.new connected poll_transmit choose
    finish in_service_su transmit_frame frame_su or_fisu guard_t7 Build.msu Build.fisu Build.lssu
    Outbound.lssu header_for_control poll poll_by poll_basic basic_from basic_fresh send_new seq_add
    submit submit_msu step new Manage.start begin stop_all_timers emit poll_event enter_proving
    proving_succeeded enter_in_service handle_su monitor dispatch handle_lssu lssu_at upgrade
    from_not_aligned from_aligned handle_fisu_or_msu fisu_or_msu_at process_in_service_su
    acknowledged end_outage end_busy deliver sequence_check report on_ack acknowledge free nack
    on_msu seq_forward Tx.new Rx.new Suerm.new Aerm.new restart reset record_su tick tick_t3 tick_t4
    tick_t1 tick_t6 tick_t7 step_timer
arrived = (refl, refl, refl)

-- Two links in service, the first with two MSUs to send, the second with one that is sent and has not
-- been acknowledged, and one more.
abbrev near : Mtp2Link
near = record (new default) {
  state = Mtp2State.in_service;
  active = true;
  tx = record (Tx.new basic) { pending = hello };
  rx = record (Rx.new basic) { last_received = 0 };
}

abbrev far : Mtp2Link
far = record (new default) {
  state = Mtp2State.in_service;
  active = true;
  tx = record (Tx.new basic) {
    last_fsn = 0;
    pending = reply;
    unacked = record { fsn = 0; sio = 5; sif = 7 ∷ 7 ∷ [] } ∷ [];
  };
  t7 = some 9;
}
