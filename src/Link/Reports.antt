-- ===== src/Link/Reports.antt =====
-- src/link.rs: what MTP3 knows of a link from the events that it polls.
pub mod Told
pub mod Lssu
pub mod Units
pub mod Run
use mtp.Base.{ℕ, Bool, true, false, ◌&&◌, List, [], ◌∷◌, ◌++◌, Option, none, some}
use mtp.Link.Types.{Event}
use mtp.Link.Engine.{Mtp2Link, poll_event}
use mtp.Link.Lssu.{carries_traffic}
use mtp.Link.Run.{Call, step}

-- What MTP3 needs to know: whether the link carries traffic, and if it does, whether the peer is
-- congested or its processor is out.
pub record View : Type 0 where
  pub traffic : Bool
  pub busy : Bool
  pub outage : Bool

-- Nothing works.
abbrev pub down : View
down = record { traffic = false; busy = false; outage = false }

-- What an event tells.
abbrev pub hear : Event → View → View
hear Event.in_service v = record v { traffic = true }
hear (Event.out_of_service _) v = down
hear (Event.alignment_failed _) v = down
hear (Event.msu _ _) v = v
hear Event.remote_processor_outage v = record v { outage = true }
hear Event.remote_processor_recovered v = record v { outage = false }
hear Event.remote_busy v = record v { busy = true }
hear Event.remote_busy_ended v = record v { busy = false }
hear Event.retransmission_requested v = v

unfoldable pub hear_all : List Event → View → View
hear_all [] v = v
hear_all (e ∷ es) v = hear_all es (hear e v)

-- What is so.
abbrev pub view : Mtp2Link → View
view l = record {
  traffic = carries_traffic l.state;
  busy = carries_traffic l.state && l.remote_busy;
  outage = carries_traffic l.state && l.remote_processor_outage;
}

-- The events that a call, and a sequence of calls, hands out.
abbrev pub polled : Option Event → List Event
polled none = []
polled (some e) = e ∷ []

unfoldable pub handed_out_by : Call → Mtp2Link → List Event
handed_out_by Call.poll_event l = polled (poll_event l).1
handed_out_by _ l = []

unfoldable pub handed_out : List Call → Mtp2Link → List Event
handed_out [] l = []
handed_out (c ∷ cs) l = handed_out_by c l ++ handed_out cs (step c l)
