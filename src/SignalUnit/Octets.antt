-- ===== src/SignalUnit/Octets.antt =====
-- src/signal_unit.rs: the bit fields of the header octets and of the status octet, by evaluation
-- over every value of a byte.
use Prim.Native.Nat.{bit_and}
use mtp.Base.{
  ℕ, ◌%◌, ◌<◌, ◌≡◌, refl, arith, Bool, true, false, not, ◌==◌, ==_iff, holds_for_all,
  holds_for_all_lem,
}
use mtp.Error.{ok}
use mtp.SignalUnit.Status.{StatusIndication, as_u8, from_u8}
use mtp.SignalUnit.Header.{seq_octet}

-- The 7-bit number and the indicator bit of a byte.
abbrev pub low_seven : ℕ → ℕ
low_seven b = bit_and b 0x7f

abbrev pub top_bit : ℕ → Bool
top_bit b = not (bit_and b 0x80 == 0)

table_number_set : holds_for_all (λ n. low_seven (seq_octet n true) == n) 128 ≡ true
unfolding holds_for_all seq_octet
table_number_set = refl

table_number_clear : holds_for_all (λ n. low_seven (seq_octet n false) == n) 128 ≡ true
unfolding holds_for_all seq_octet
table_number_clear = refl

table_bit_set : holds_for_all (λ n. top_bit (seq_octet n true)) 128 ≡ true
unfolding holds_for_all seq_octet
table_bit_set = refl

table_bit_clear : holds_for_all (λ n. not (top_bit (seq_octet n false))) 128 ≡ true
unfolding holds_for_all seq_octet
table_bit_clear = refl

table_octet : holds_for_all (λ b. seq_octet (low_seven b) (top_bit b) == b) 256 ≡ true
unfolding holds_for_all seq_octet
table_octet = refl

table_seven : holds_for_all (λ b. low_seven b == b % 128) 256 ≡ true
unfolding holds_for_all
table_seven = refl

table_six : holds_for_all (λ b. bit_and b 0x3f == b % 64) 256 ≡ true
unfolding holds_for_all
table_six = refl

table_three : holds_for_all (λ b. bit_and b 0x07 == b % 8) 256 ≡ true
unfolding holds_for_all
table_three = refl

module _ (n : ℕ) (h : n < 128) where
  pub low_seven-seq_octet : (bit : Bool) → low_seven (seq_octet n bit) ≡ n
  low_seven-seq_octet true = (==_iff _ n).0 (holds_for_all_lem _ 128 h table_number_set)
  low_seven-seq_octet false = (==_iff _ n).0 (holds_for_all_lem _ 128 h table_number_clear)

  pub top_bit-seq_octet : (bit : Bool) → top_bit (seq_octet n bit) ≡ bit
  top_bit-seq_octet true = holds_for_all_lem _ 128 h table_bit_set
  top_bit-seq_octet false =
      ground
        (arith, holds_for_all_lem (λ n. not (top_bit (seq_octet n false))) 128 h table_bit_clear)

module _ (b : ℕ) (h : b < 256) where
  pub seq_octet-fields : seq_octet (low_seven b) (top_bit b) ≡ b
  seq_octet-fields = (==_iff _ b).0 (holds_for_all_lem _ 256 h table_octet)

  pub low_seven-eq-mod : low_seven b ≡ b % 128
  low_seven-eq-mod = (==_iff _ _).0 (holds_for_all_lem _ 256 h table_seven)

  pub low_six-eq-mod : bit_and b 0x3f ≡ b % 64
  low_six-eq-mod = (==_iff _ _).0 (holds_for_all_lem _ 256 h table_six)

  pub low_three-eq-mod : bit_and b 0x07 ≡ b % 8
  low_three-eq-mod = (==_iff _ _).0 (holds_for_all_lem _ 256 h table_three)

pub from_u8-as_u8 : (s : StatusIndication) → from_u8 (bit_and (as_u8 s) 0x07) ≡ ok s
unfolding from_u8 as_u8
from_u8-as_u8 StatusIndication.out_of_alignment = refl
from_u8-as_u8 _ = refl

pub as_u8-from_u8 :
    (b : ℕ) {s : StatusIndication} → from_u8 b ≡ ok s → bit_and (as_u8 s) 0x07 ≡ bit_and b 0x07
unfolding from_u8 as_u8
as_u8-from_u8 b h = ground arith
