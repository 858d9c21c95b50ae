-- ===== src/SignalUnit/Accept.antt =====
-- src/signal_unit.rs: exactly which octets `decode` accepts, against a description of the frame
-- format by lengths and codes.
use mtp.Base.{
  ℕ, ◌%◌, ◌≤◌, ◌<◌, ◌≡◌, ◌⊎◌, ◌↔◌, arith, Bool, true, false, List, [], ◌∷◌, length, All, IsByte,
}
use mtp.Error.{Result, ok, err}
use mtp.SignalUnit.Status.{from_u8}
use mtp.SignalUnit.Codec.{decode}
use mtp.SignalUnit.Octets.{low_six-eq-mod, low_three-eq-mod}

-- The first octet of a status field holds one of the six codes.
abbrev pub HasStatus : List ℕ → Type 0
HasStatus [] = ⊥
HasStatus (b ∷ _) = b % 8 < 6

-- A body that agrees with the length indicator.
abbrev pub IsBody : ℕ → List ℕ → Type 0
IsBody li body =
    ((li ≡ 0) × (length body ≡ 0))
    ⊎ ((1 ≤ li) × (li ≤ 2) × (length body ≡ li) × HasStatus body)
    ⊎ ((3 ≤ li) × (li < 63) × (length body ≡ li))
    ⊎ ((li ≡ 63) × (63 ≤ length body) × (length body ≤ 273))

-- Three header octets and a body that fits them.
abbrev pub IsFrame : List ℕ → Type 0
IsFrame (b0 ∷ b1 ∷ b2 ∷ body) = IsBody (b2 % 64) body
IsFrame _ = ⊥

abbrev pub is_ok {ℓ} : {A : Type ℓ} → Result A → Bool
is_ok (ok _) = true
is_ok (err _) = false

-- `decode` accepts a sequence of octets exactly when it is a frame: a FISU with no body, an LSSU
-- whose status field has the stated length and a defined code, or an MSU whose body has the stated
-- length, at a saturated indicator 63 to 273 octets.
pub decode-IsFrame_iff :
    (bytes : List ℕ) → All IsByte bytes → (is_ok (decode bytes) ≡ true) ↔ IsFrame bytes
unfolding decode from_u8
decode-IsFrame_iff [] v = ground arith
decode-IsFrame_iff (_ ∷ []) v = ground arith
decode-IsFrame_iff (_ ∷ _ ∷ []) v = ground arith
decode-IsFrame_iff (b0 ∷ b1 ∷ b2 ∷ []) v = ground (arith, low_six-eq-mod b2 v.1.1.0)
decode-IsFrame_iff (b0 ∷ b1 ∷ b2 ∷ sio ∷ sif) v =
    ground (arith, low_six-eq-mod b2 v.1.1.0, low_three-eq-mod sio v.1.1.1.0)
