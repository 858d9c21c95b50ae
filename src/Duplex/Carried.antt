-- ===== src/Duplex/Carried.antt =====
-- src/link.rs and src/signal_unit.rs: links that are joined by octets are links that are joined by
-- signal units.
use mtp.Base.{ℕ, ◌≡◌, refl, sym, ◌∙◌, ap, arith, subst, List, [], ◌∷◌, ◌++◌}
use mtp.Error.{Mtp2Error, Result, ok, err, ◌>>=◌}
use mtp.SignalUnit.Unit.{SignalUnit}
use mtp.SignalUnit.Codec.{encode, decode}
use mtp.SignalUnit.Valid.{IsValid}
use mtp.SignalUnit.Roundtrip.{decode-encode}
use mtp.Link.Run.{Call}
use mtp.Link.Wire.{IsWire, IsProper}
use mtp.Duplex.{End, IsLocal, opened}
use mtp.Duplex
use mtp.Duplex.Octets.{Port}

-- The octets of each of a list of units that fit the wire format.
abbrev pub Carries : List (List ℕ) → List SignalUnit → Type 0
Carries [] [] = Unit
Carries (bytes ∷ xs) (su ∷ sus) = (encode su ≡ ok bytes) × IsValid su × Carries xs sus
Carries _ _ = ⊥

pub decoded :
    (bytes : List ℕ) (su : SignalUnit) → encode su ≡ ok bytes → IsValid su → decode bytes ≡ ok su
decoded bytes su e v = ap (λ r. r >>= decode) (sym e) ∙ decode-encode su v

pub snoc :
    (xs : List (List ℕ)) (sus : List SignalUnit) (bytes : List ℕ) (su : SignalUnit)
    → Carries xs sus
    → encode su ≡ ok bytes
    → IsValid su
    → Carries (xs ++ (bytes ∷ [])) (sus ++ (su ∷ []))
snoc [] [] bytes su c e v = (e, v, tt)
snoc [] (_ ∷ _) bytes su c e v = absurd c
snoc (_ ∷ _) [] bytes su c e v = absurd c
snoc (x ∷ xs) (u ∷ us) bytes su (f, w, c) e v = (f, w, snoc xs us bytes su c e v)

-- One of the units is lost.
pub record Loss (xs ys : List (List ℕ)) (sus : List SignalUnit) : Type 0 where
  pub before : List SignalUnit
  pub su : SignalUnit
  pub after : List SignalUnit
  pub split : sus ≡ before ++ (su ∷ after)
  pub carries : Carries (xs ++ ys) (before ++ after)

pub lose :
    (xs ys : List (List ℕ)) (bytes : List ℕ) (sus : List SignalUnit)
    → Carries (xs ++ (bytes ∷ ys)) sus
    → Loss xs ys sus
lose [] ys bytes [] c = absurd c
lose [] ys bytes (u ∷ us) (e, v, c) = record {
  before = [];
  su = u;
  after = us;
  split = refl;
  carries = c;
}
lose (x ∷ xs) ys bytes [] c = absurd c
lose (x ∷ xs) ys bytes (u ∷ us) (e, v, c) =
    let l = lose xs ys bytes us c in
    record {
      before = u ∷ l.before;
      su = l.su;
      after = l.after;
      split = ap (λ k. u ∷ k) l.split;
      carries = (e, v, l.carries);
    }

-- The end that a port is, with the units that are under way to it.
abbrev pub end_of : Port → List SignalUnit → End
end_of p sus = record { link = p.link; inbox = sus; submitted = p.submitted; told = p.told }

-- A port and an end that it is.
pub record Fits (p : Port) : Type 0 where
  pub sus : List SignalUnit
  pub carries : Carries p.inbox sus
  pub wire : IsWire p.link

abbrev pub as_end : (p : Port) → Fits p → End
as_end p f = end_of p f.sus

-- A step of ports is one of the ends that they are.
pub record Follows (near far near' far' : Port) (f : Fits near) (g : Fits far) : Type 0 where
  pub near_fits : Fits near'
  pub far_fits : Fits far'
  pub step :
      Duplex.Step (as_end near f) (as_end far g) (as_end near' near_fits) (as_end far' far_fits)

pub local-IsProper : (c : Call) → IsLocal c → IsProper c
local-IsProper _ IsLocal.stop = tt
local-IsProper _ IsLocal.tick = tt
local-IsProper _ IsLocal.handle_corrupted_su = tt
local-IsProper _ (IsLocal.set_emergency b) = tt
local-IsProper _ IsLocal.local_processor_outage = tt
local-IsProper _ IsLocal.local_processor_recovered = tt
local-IsProper _ IsLocal.local_busy = tt
local-IsProper _ IsLocal.local_busy_ended = tt

-- Octets and the unit that they decode to.
abbrev value : SignalUnit → Result SignalUnit → SignalUnit
value d (ok su) = su
value d (err _) = d

-- A unit that is received is the one that was sent.
pub record Received (rest : List (List ℕ)) (su : SignalUnit) (sus : List SignalUnit) : Type 0 where
  pub tail : List SignalUnit
  pub split : sus ≡ su ∷ tail
  pub valid : IsValid su
  pub carries : Carries rest tail

pub receives_lem :
    (bytes : List ℕ) (rest : List (List ℕ)) (su : SignalUnit) (sus : List SignalUnit)
    → Carries (bytes ∷ rest) sus
    → decode bytes ≡ ok su
    → Received rest su sus
receives_lem bytes rest su [] c d = absurd c
receives_lem bytes rest su (u ∷ us) (e, v, c) d =
    let same : u ≡ su = ap (value u) (sym (decoded bytes u e v) ∙ d) in
    record { tail = us; split = ap (λ k. k ∷ us) same; valid = subst IsValid same v; carries = c }

-- What comes in always decodes.
pub drops_lem :
    (bytes : List ℕ) (rest : List (List ℕ)) (sus : List SignalUnit) (f : Mtp2Error)
    → Carries (bytes ∷ rest) sus
    → decode bytes ≡ err f
    → ⊥
drops_lem bytes rest [] f c d = c
drops_lem bytes rest (u ∷ us) f (e, v, c) d = ground (arith, decoded bytes u e v, d)
