-- ===== src/Link/Queue.antt =====
-- src/link.rs: MSUs that are queued before a link is started.
use mtp.Base.{ℕ, ◌≡◌, arith, List, [], ◌∷◌, ◌++◌}
use mtp.Error.{ok}
use mtp.Retransmission.Tx
use mtp.Link.Types.{Mtp2State}
use mtp.Link.Engine.{Mtp2Link, stop_all_timers}
use mtp.Link.Manage.{begin, start, submit_msu}

-- An MSU that is accepted while the link is out of service is queued behind the others, and the start
-- of the link forgets it and all of them: nothing is waiting and nothing is outstanding then.
pub start_forgets :
    (sio : ℕ) (sif : List ℕ) (l l' : Mtp2Link)
    → l.state ≡ Mtp2State.out_of_service
    → submit_msu sio sif l ≡ ok l'
    → (l'.tx.pending ≡ l.tx.pending ++ ((sio, sif) ∷ []))
      × ((start l').tx.pending ≡ [])
      × ((start l').tx.unacked ≡ [])
unfolding submit_msu Tx.submit start begin stop_all_timers Tx.new
start_forgets sio sif l l' s e = ground arith
