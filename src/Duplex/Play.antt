-- ===== src/Duplex/Play.antt =====
-- src/link.rs and src/signal_unit.rs: runs of two links that are joined by octets, as a function.
use mtp.Base.{
  ℕ, ◌≡◌, refl, ap, arith, Option, none, some, List, length, [], ◌∷◌, ◌++◌, leb, subst,
  if◌then◌else◌, Bool-cases, inl, inr,
}
use mathlib.Core.Option.{some-injective, none-ne-some}
use mtp.Error.{Result, ok, err}
use mtp.SignalUnit.Unit.{SignalUnit}
use mtp.Retransmission.Tx.{unacked_len}
use mtp.Link.Types.{Event}
use mtp.Link.Engine.{Mtp2Link, poll_event}
use mtp.Link.Manage.{submit_msu}
use mtp.Link.Outbound.{poll_transmit}
use mtp.Link.Inbound.{handle_su}
use mtp.Link.Run.{Call, step}
use mtp.SignalUnit.Codec.{encode, decode}
use mtp.Duplex.{IsLocal}
use mtp.Duplex.Octets.{Port, Step, Reach}

-- What a port may do next; `loses` loses the first unit on the way to it.
pub data Act : Type 0 where
  calls : (c : Call) → IsLocal c → Act
  submits : ℕ → List ℕ → Act
  polls_event transmits receives loses : Act

abbrev Ports : Type 0
Ports = Port × Port

unfoldable pub submitted : ℕ → List ℕ → Result Mtp2Link → Ports → Option Ports
submitted sio sif (ok l) (near, far) =
    if leb 2 (length sif)
    then some (record near { link = l; submitted = near.submitted ++ ((sio, sif) ∷ []) }, far)
    else none
submitted sio sif (err _) p = none

unfoldable pub polled : Mtp2Link × Option Event → Ports → Option Ports
polled (l, some e) (near, far) = some (record near { link = l; told = near.told ++ (e ∷ []) }, far)
polled (l, none) p = none

unfoldable pub put : Mtp2Link → Result (List ℕ) → Ports → Option Ports
put l (ok bytes) (near, far) =
    if leb (unacked_len l.tx) 127
    then some (record near { link = l }, record far { inbox = far.inbox ++ (bytes ∷ []) })
    else none
put l (err _) p = none

unfoldable pub sent : Mtp2Link × Option SignalUnit → Ports → Option Ports
unfolding put
sent (l, some su) p = put l (encode su) p
sent (l, none) p = none

unfoldable pub got : Result SignalUnit → List (List ℕ) → Ports → Option Ports
got (ok su) rest (near, far) =
    some (record near { link = handle_su su near.link; inbox = rest }, far)
got (err _) rest (near, far) = some (record near { inbox = rest }, far)

unfoldable pub taken : List (List ℕ) → Ports → Option Ports
unfolding got
taken (bytes ∷ rest) p = got (decode bytes) rest p
taken [] p = none

unfoldable pub lost : List (List ℕ) → Ports → Option Ports
lost (bytes ∷ rest) (near, far) = some (record near { inbox = rest }, far)
lost [] p = none

unfoldable pub act : Act → Ports → Option Ports
unfolding submitted polled sent taken lost
act (Act.calls c h) (near, far) = some (record near { link = step c near.link }, far)
act (Act.submits sio sif) (near, far) = submitted sio sif (submit_msu sio sif near.link) (near, far)
act Act.polls_event (near, far) = polled (poll_event near.link) (near, far)
act Act.transmits (near, far) = sent (poll_transmit near.link) (near, far)
act Act.receives (near, far) = taken near.inbox (near, far)
act Act.loses (near, far) = lost near.inbox (near, far)

module _ (near far : Port) where
  abbrev Steps : Ports → Type 0
  Steps p = Step near far p.0 p.1

  abbrev IsStep : Option Ports → Type 0
  IsStep o = (p : Ports) → o ≡ some p → Steps p

  one-IsStep : (q : Ports) → Steps q → IsStep (some q)
  one-IsStep q s p e = subst Steps (some-injective _ _ e) s

  no-IsStep : IsStep none
  no-IsStep p e = absurd (none-ne-some p e)

  submitted-IsStep :
      (sio : ℕ) (sif : List ℕ) (r : Result Mtp2Link)
      → submit_msu sio sif near.link ≡ r
      → IsStep (submitted sio sif r (near, far))
  unfolding submitted
  submitted-IsStep sio sif (ok l) e = elim (Bool-cases (leb 2 (length sif))) [
    | inl b ↦ rw b (one-IsStep _ (Step.submits sio sif l (ground (arith, b)) e))
    | inr b ↦ rw b no-IsStep
  ]
  submitted-IsStep sio sif (err _) e = no-IsStep

  polled-IsStep :
      (l : Mtp2Link) (o : Option Event)
      → poll_event near.link ≡ (l, o)
      → IsStep (polled (l, o) (near, far))
  unfolding polled
  polled-IsStep l (some ev) e = one-IsStep _ (Step.polls_event l ev e)
  polled-IsStep l none e = no-IsStep

  put-IsStep :
      (l : Mtp2Link) (su : SignalUnit) (r : Result (List ℕ))
      → poll_transmit near.link ≡ (l, some su)
      → encode su ≡ r
      → IsStep (put l r (near, far))
  unfolding put
  put-IsStep l su (ok bytes) e f = elim (Bool-cases (leb (unacked_len l.tx) 127)) [
    | inl b ↦ rw b (one-IsStep _ (Step.transmits l su bytes e f (ground (arith, b))))
    | inr b ↦ rw b no-IsStep
  ]
  put-IsStep l su (err _) e f = no-IsStep

  sent-IsStep :
      (l : Mtp2Link) (o : Option SignalUnit)
      → poll_transmit near.link ≡ (l, o)
      → IsStep (sent (l, o) (near, far))
  unfolding sent
  sent-IsStep l (some su) e = put-IsStep l su (encode su) e refl
  sent-IsStep l none e = no-IsStep

  got-IsStep :
      (bytes : List ℕ) (rest : List (List ℕ)) (r : Result SignalUnit)
      → near.inbox ≡ bytes ∷ rest
      → decode bytes ≡ r
      → IsStep (got r rest (near, far))
  unfolding got
  got-IsStep bytes rest (ok su) e f = one-IsStep _ (Step.receives bytes rest su e f)
  got-IsStep bytes rest (err x) e f = one-IsStep _ (Step.drops bytes rest x e f)

  taken-IsStep : (bs : List (List ℕ)) → near.inbox ≡ bs → IsStep (taken bs (near, far))
  unfolding taken
  taken-IsStep (bytes ∷ rest) e = got-IsStep bytes rest (decode bytes) e refl
  taken-IsStep [] e = no-IsStep

  lost-IsStep : (bs : List (List ℕ)) → near.inbox ≡ bs → IsStep (lost bs (near, far))
  unfolding lost
  lost-IsStep (bytes ∷ rest) e = one-IsStep _ (Step.loses [] rest bytes e)
  lost-IsStep [] e = no-IsStep

  act-IsStep : (x : Act) → IsStep (act x (near, far))
  unfolding act
  act-IsStep (Act.calls c h) = one-IsStep _ (Step.calls c h)
  act-IsStep (Act.submits sio sif) = submitted-IsStep sio sif _ refl
  act-IsStep Act.polls_event = polled-IsStep _ _ refl
  act-IsStep Act.transmits = sent-IsStep _ _ refl
  act-IsStep Act.receives = taken-IsStep near.inbox refl
  act-IsStep Act.loses = lost-IsStep near.inbox refl

-- A turn of either port, and a sequence of turns.
pub data Turn : Type 0 where
  left right : Act → Turn

abbrev swapped : Option Ports → Option Ports
swapped none = none
swapped (some (b, a)) = some (a, b)

unfoldable pub turn : Turn → Ports → Option Ports
turn (Turn.left x) (a, b) = act x (a, b)
turn (Turn.right x) (a, b) = swapped (act x (b, a))

-- A turn that is not possible is passed over.
abbrev taken_or : Ports → Option Ports → Ports
taken_or p (some q) = q
taken_or p none = p

unfoldable pub play : List Turn → Ports → Ports
play [] p = p
play (t ∷ ts) p = play ts (taken_or p (turn t p))

swapped-some : (o : Option Ports) (p : Ports) → swapped o ≡ some p → o ≡ some (p.1, p.0)
swapped-some none p e = absurd (none-ne-some p e)
swapped-some (some (b, a)) p e = ap (λ q. some (q.1, q.0)) (some-injective _ _ e)

module _ (oa ob : Port) where
  turn-Reach :
      (t : Turn) (a b : Port) (p : Ports)
      → Reach oa ob a b
      → turn t (a, b) ≡ some p
      → Reach oa ob p.0 p.1
  unfolding turn
  turn-Reach (Turn.left x) a b p r e = Reach.left r (act-IsStep a b x p e)
  turn-Reach (Turn.right x) a b p r e =
      Reach.right r (act-IsStep b a x (p.1, p.0) (swapped-some (act x (b, a)) p e))

  taken-Reach :
      (p : Ports) (o : Option Ports)
      → Reach oa ob p.0 p.1
      → ((q : Ports) → o ≡ some q → Reach oa ob q.0 q.1)
      → Reach oa ob (taken_or p o).0 (taken_or p o).1
  taken-Reach p none r f = r
  taken-Reach p (some q) r f = f q refl

  pub play-Reach :
      (ts : List Turn) (p : Ports) → Reach oa ob p.0 p.1 → Reach oa ob (play ts p).0 (play ts p).1
  unfolding play
  play-Reach [] p r = r
  play-Reach (t ∷ ts) p r =
      play-Reach ts (taken_or p (turn t p))
        (taken-Reach p (turn t p) r (λ q e. turn-Reach t p.0 p.1 q r e))
