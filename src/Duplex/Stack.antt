-- ===== src/Duplex/Stack.antt =====
-- src/link.rs and src/signal_unit.rs: in-order delivery over octets.
use mtp.Base.{ℕ, ◌≤◌, ◌≡◌, sym, ap, arith, subst, List, [], ◌∷◌, ◌++◌, length}
use mtp.Error.{ok}
use mtp.Retransmission.Rx
use mtp.Retransmission.Method.{RetransmissionMethod}
use mtp.Link.Engine.{Mtp2Link}
use mtp.Link.Manage.{submit_msu, start}
use mtp.Link.Outbound.{poll_transmit}
use mtp.Link.Run.{Call, step, unless_refused}
use mtp.Link.Wire.{IsWire, IsWireTx}
use mtp.Link.Wire.Frames.{new-IsWireTx}
use mtp.Link.Wire.Received.{submit-IsWire, handle_su-IsWire}
use mtp.Link.Wire.Sent.{SendsAny, step-IsWire, poll_transmit-SendsAny}
use mtp.Duplex.{End, IsLocal, opened}
use mtp.Duplex
use mtp.Duplex.Quiet.{msus}
use mtp.Duplex.Order.{IsOut, opened-fields, links_deliver_in_order}
use mtp.Duplex.Octets.{Port, Step, Reach, connected}
use mtp.Duplex.Carried.{
  Carries, snoc, lose, Fits, as_end, Follows, local-IsProper, receives_lem, drops_lem,
}

submit_wire :
    (sio : ℕ) (sif : List ℕ) (l l' : Mtp2Link)
    → 2 ≤ length sif
    → submit_msu sio sif l ≡ ok l'
    → IsWire l
    → IsWire l'
submit_wire sio sif l l' two e w =
    subst (λ r. IsWire (unless_refused l r)) e (submit-IsWire sio sif l two w)

follows :
    (near far near' far' : Port) (f : Fits near) (g : Fits far)
    → Step near far near' far'
    → Follows near far near' far' f g
follows near far _ _ f g (Step.calls c h) = record {
  near_fits = record {
    sus = f.sus;
    carries = f.carries;
    wire = step-IsWire c near.link (local-IsProper c h) f.wire;
  };
  far_fits = g;
  step = Duplex.Step.calls c h;
}
follows near far _ _ f g (Step.submits sio sif l two e) = record {
  near_fits = record {
    sus = f.sus;
    carries = f.carries;
    wire = submit_wire sio sif near.link l two e f.wire;
  };
  far_fits = g;
  step = Duplex.Step.submits sio sif l e;
}
follows near far _ _ f g (Step.polls_event l ev e) = record {
  near_fits = record {
    sus = f.sus;
    carries = f.carries;
    wire =
        subst IsWire (ap (λ r. r.0) e)
          (unfold step in step-IsWire Call.poll_event near.link tt f.wire);
  };
  far_fits = g;
  step = Duplex.Step.polls_event l ev e;
}
follows near far _ _ f g (Step.transmits l su bytes e c room) =
    let sends : SendsAny (poll_transmit near.link) =
      unfold poll_transmit in poll_transmit-SendsAny near.link near.link.state f.wire in
    record {
      near_fits = record {
        sus = f.sus;
        carries = f.carries;
        wire = subst IsWire (ap (λ r. r.0) e) sends.0;
      };
      far_fits = record {
        sus = g.sus ++ (su ∷ []);
        carries = snoc far.inbox g.sus bytes su g.carries c (sends.1 su (ap (λ r. r.1) e));
        wire = g.wire;
      };
      step = Duplex.Step.transmits l su e room;
    }
follows near far _ _ f g (Step.receives bytes rest su e d) =
    let r = receives_lem bytes rest su f.sus (subst (λ x. Carries x f.sus) e f.carries) d in
    record {
      near_fits = record {
        sus = r.tail;
        carries = r.carries;
        wire = handle_su-IsWire su near.link r.valid f.wire;
      };
      far_fits = g;
      step = Duplex.Step.receives su r.tail r.split;
    }
follows near far _ _ f g (Step.drops bytes rest x e d) =
    absurd (drops_lem bytes rest f.sus x (subst (λ k. Carries k f.sus) e f.carries) d)
follows near far _ _ f g (Step.loses xs ys bytes e) =
    let l = lose xs ys bytes f.sus (subst (λ x. Carries x f.sus) e f.carries) in
    record {
      near_fits = record { sus = l.before ++ l.after; carries = l.carries; wire = f.wire };
      far_fits = g;
      step = Duplex.Step.loses l.before l.after l.su l.split;
    }

-- Ports that are reached are ends that are reached.
record Reached (oa ob : End) (a b : Port) : Type 0 where
  pub a_fits : Fits a
  pub b_fits : Fits b
  pub reach : Duplex.Reach oa ob (as_end a a_fits) (as_end b b_fits)

reached :
    (a b a' b' : Port) (f : Fits a) (g : Fits b)
    → Reach a b a' b'
    → Reached (as_end a f) (as_end b g) a' b'
reached a b _ _ f g Reach.here = record { a_fits = f; b_fits = g; reach = Duplex.Reach.here }
reached a b _ _ f g (Reach.left {a' = x} {b' = y} {a'' = x'} {b'' = y'} r st) =
    let q = reached a b x y f g r in
    let w = follows x y x' y' q.a_fits q.b_fits st in
    record { a_fits = w.near_fits; b_fits = w.far_fits; reach = Duplex.Reach.left q.reach w.step }
reached a b _ _ f g (Reach.right {a' = x} {b' = y} {a'' = x'} {b'' = y'} r st) =
    let q = reached a b x y f g r in
    let w = follows y x y' x' q.b_fits q.a_fits st in
    record { a_fits = w.far_fits; b_fits = w.near_fits; reach = Duplex.Reach.right q.reach w.step }

start_wire : (m : RetransmissionMethod) (l : Mtp2Link) → IsOut m l → IsWire (start l)
start_wire m l o =
    let (tx, rx, _) = opened-fields m l o in
    record {
      tx = subst IsWireTx (sym tx) (new-IsWireTx m);
      last = rw rx (unfold Rx.new in omega arith);
    }

-- The MSUs that a port has reported, polled or not.
abbrev pub reports : Port → List (ℕ × List ℕ)
reports p = msus (p.told ++ p.link.events)

abbrev pub Delivers : Port → Port → Type 0
Delivers a b = (rest : List (ℕ × List ℕ)) × (a.submitted ≡ reports b ++ rest)

-- Two links of the same retransmission method that are out of service and have no event waiting are
-- started, with nothing under way between them; each unit that one sends is encoded, and what comes in
-- is decoded. However their methods are called from then on, other than to start them again, and
-- however units between them are lost or reported as corrupted, as long as MSUs have at least two octets of
-- service information and neither link ever has more than 127 outstanding, the MSUs that each has
-- reported, polled or not, are a beginning of those that the other has accepted from its MTP3: none
-- is left out before the end, repeated, reordered or altered.
pub octets_deliver_in_order :
    (m : RetransmissionMethod) (la lb : Mtp2Link) (a b : Port)
    → IsOut m la
    → IsOut m lb
    → Reach (connected la) (connected lb) a b
    → Delivers a b × Delivers b a
unfolding connected
octets_deliver_in_order m la lb a b o p r =
    let f : Fits (connected la) = record { sus = []; carries = tt; wire = start_wire m la o } in
    let g : Fits (connected lb) = record { sus = []; carries = tt; wire = start_wire m lb p } in
    let q = reached (connected la) (connected lb) a b f g r in
    links_deliver_in_order m la lb (as_end a q.a_fits) (as_end b q.b_fits) o p
      (unfold opened in q.reach)
