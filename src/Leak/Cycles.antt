-- ===== src/Leak/Cycles.antt =====
-- examples/leak_check.rs: the two workloads. `unwrap` on an error panics, which ends the program: a
-- workload is then the error. `black_box` returns its argument.
use mtp.Base.{
  ℕ, zero, suc, ◌≡◌, refl, true, false, Bool, List, [], ◌∷◌, ◌++◌, replicate, Option, some, length,
  arith,
}
use mtp.Error.{Result, ok, ◌>>=◌}
use mtp.SignalUnit.Status.{StatusIndication}
use mtp.SignalUnit.Header.{SuHeader}
use mtp.SignalUnit.Header
use mtp.SignalUnit.Unit.{SignalUnit}
use mtp.SignalUnit.Build
use mtp.SignalUnit.Codec.{encode, decode}
use mtp.Retransmission.Method.{basic}
use mtp.Link.Types.{Event, Mtp2State}
use mtp.Link.Config.{Mtp2Config}
use mtp.Link.Config
use mtp.Link.Engine.{Mtp2Link, new, poll_event}
use mtp.Link.Manage.{start, submit_msu}
use mtp.Link.Outbound.{poll_transmit}
use mtp.Link.Inbound.{handle_su}
use mtp.Link.Time.{tick}

-- `fast_config`.
abbrev pub fast_config : Mtp2Config
fast_config = record Config.default {
  method = basic;
  t1_aligned_ready = 10000;
  t2_not_aligned = 10000;
  t3_aligned = 10000;
  t4_proving_normal = 3;
}

-- The units of `codec_cycle`.
abbrev pub sif : List ℕ
sif = (0x01 ∷ 0x02 ∷ 0x03 ∷ 0x04 ∷ []) ++ replicate 32 0xab

unfoldable pub units : Result (List SignalUnit)
units = do
  hdr ← Header.new 5 true 6 true
  msu ← Build.msu hdr 0x83 sif
  ok (Build.fisu hdr ∷ Build.lssu hdr StatusIndication.normal_alignment ∷ msu ∷ [])

-- The inner loop of `codec_cycle`.
unfoldable pub transcode : List SignalUnit → Result (List SignalUnit)
transcode [] = ok []
transcode (su ∷ sus) = do
  bytes ← encode su
  su' ← decode bytes
  sus' ← transcode sus
  ok (su' ∷ sus')

-- `codec_cycle`: what its rounds decode.
unfoldable pub codec_rounds : ℕ → List SignalUnit → Result (List SignalUnit)
codec_rounds zero sus = ok []
codec_rounds (suc iters) sus = do
  decoded ← transcode sus
  rest ← codec_rounds iters sus
  ok (decoded ++ rest)

unfoldable pub codec_cycle : ℕ → Result (List SignalUnit)
codec_cycle iters = units >>= codec_rounds iters

-- The loop over `poll_event`, on fuel.
unfoldable pub drain : ℕ → Mtp2Link → Mtp2Link × Bool
drain zero l = (l, false)
drain (suc fuel) l =
    let (l', e) = poll_event l in
    let rest = drain fuel l' in elim e [ Option.none ↦ (l', true) | some _ ↦ rest ]

-- The loop ends: the fuel is one more than the events that wait.
pub drain_ends :
    (es : List Event) (l : Mtp2Link)
    → l.events ≡ es
    → drain (suc (length es)) l ≡ (record l { events = [] }, true)
unfolding drain poll_event
drain_ends [] l e = ground (arith, e)
drain_ends (x ∷ es) l e = ground (arith, e, drain_ends es (record l { events = es }) refl)

-- What a round of `state_machine_cycle` comes to: the state that it asserts, what it sends, the
-- link in the end, and whether the loop over the events has ended.
pub record Round : Type 0 where
  pub state : Mtp2State
  pub sent : Option SignalUnit
  pub link : Mtp2Link
  pub drained : Bool

unfoldable pub ticks : ℕ → Mtp2Link → Mtp2Link
ticks zero l = l
ticks (suc n) l = ticks n (tick l)

-- A link that a round has brought up.
unfoldable pub brought_up : SuHeader → SuHeader → Mtp2Link
brought_up peer ack =
    let l1 = start (new fast_config) in
    let l2 = handle_su (Build.lssu peer StatusIndication.out_of_alignment) l1 in
    let l3 = handle_su (Build.lssu peer StatusIndication.normal_alignment) l2 in
    handle_su (Build.fisu ack) (ticks 3 l3)

unfoldable pub state_machine_round : SuHeader → Result Round
state_machine_round peer = do
  ack ← Header.new 0 true 0 true
  let up = brought_up peer ack
  l ← submit_msu 0x83 (0x01 ∷ 0x02 ∷ 0x03 ∷ []) up
  let (l', sent) = poll_transmit l
  let (l'', drained) = drain (suc (length l'.events)) l'
  ok (record { state = up.state; sent = sent; link = l''; drained = drained })

unfoldable pub state_machine_rounds : ℕ → SuHeader → Result (List Round)
state_machine_rounds zero peer = ok []
state_machine_rounds (suc iters) peer = do
  round ← state_machine_round peer
  rest ← state_machine_rounds iters peer
  ok (round ∷ rest)

-- `state_machine_cycle`.
unfoldable pub state_machine_cycle : ℕ → Result (List Round)
state_machine_cycle iters = Header.new 127 true 127 true >>= state_machine_rounds iters
