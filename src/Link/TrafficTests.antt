-- ===== src/Link/TrafficTests.antt =====
-- src/link.rs: MSUs that a link in service receives.
use mtp.Base.{ℕ, ◌≡◌, refl, arith, true, List, [], ◌∷◌, ◌++◌}
use mtp.Retransmission.Seq.{seq_forward}
use mtp.Retransmission.Rx.{on_msu, request}
use mtp.Retransmission.Rx
use mtp.Monitor.Suerm
use mtp.Link.Types.{Mtp2State, Event}
use mtp.Link.Config.{default}
use mtp.Link.Engine.{Mtp2Link, new}
use mtp.Link.Manage.{start, submit_msu}
use mtp.Retransmission.Tx.{submit}
use mtp.Retransmission.Tx
use mtp.Link.Queue.{start_forgets}
use mtp.Link.Run.{run}
use mtp.Link.Tests.{idle}
use mtp.Link.Reception.{Arrival, arrive, check_all, IsServing, run-check_all}

abbrev server : Mtp2Link
server = record (new default) { state = Mtp2State.in_service; active = true }

server-IsServing : IsServing server
unfolding new Suerm.new
server-IsServing = ground arith

abbrev numbered : ℕ → Arrival
numbered n = record { header = record idle { fsn = n }; sio = 5; sif = n ∷ n ∷ [] }

-- The second MSU is lost.
abbrev gap : List Arrival
gap = numbered 0 ∷ numbered 2 ∷ numbered 3 ∷ []

run-check_all_example :
    ((run (arrive gap) server).rx ≡ (check_all gap server.rx).0)
    × ((run (arrive gap) server).events ≡ server.events ++ (check_all gap server.rx).1)
run-check_all_example = run-check_all gap server server-IsServing

told :
    (check_all gap server.rx).1
    ≡ Event.msu 5 (0 ∷ 0 ∷ [])
      ∷ Event.retransmission_requested
      ∷ Event.retransmission_requested
      ∷ []
unfolding check_all on_msu request seq_forward new Rx.new
told = refl

-- A link out of service, and the same with an MSU queued.
abbrev idle_link : Mtp2Link
idle_link = new default

abbrev queued : Mtp2Link
queued = record idle_link { tx = record idle_link.tx { pending = (5, 1 ∷ 2 ∷ []) ∷ [] } }

start_forgets_example :
    (queued.tx.pending ≡ idle_link.tx.pending ++ ((5, 1 ∷ 2 ∷ []) ∷ []))
    × ((start queued).tx.pending ≡ [])
    × ((start queued).tx.unacked ≡ [])
start_forgets_example =
    start_forgets 5 (1 ∷ 2 ∷ []) idle_link queued (unfold new in refl)
      (unfold submit_msu submit new Tx.new in refl)
