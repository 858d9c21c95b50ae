-- ===== src/Text/Read.antt =====
-- Decimal numbers in a text are read back.
use mtp.Base.{
  ℕ, zero, suc, ◌+◌, ◌-◌, ◌*◌, ◌/◌, ◌%◌, ◌<◌, ◌≤◌, ◌≡◌, refl, ◌∙◌, ap, arith, Bool, true, false,
  ◌&&◌, List, [], ◌∷◌, ◌++◌, leb, ltb, if◌then◌else◌, append_assoc, Bool-cases, inl, inr,
}
use mtp.Text.{digit, digits, decimal}

abbrev pub is_digit : ℕ → Bool
is_digit c = leb 48 c && leb c 57

-- A number at the front of a text, after `acc`, and what follows it.
unfoldable pub read_from : ℕ → List ℕ → ℕ × List ℕ
read_from acc [] = (acc, [])
read_from acc (c ∷ cs) =
    let rest = read_from (acc * 10 + (c - 48)) cs in if is_digit c then rest else (acc, c ∷ cs)

-- A text that does not begin with a digit.
abbrev pub Ends : List ℕ → Type 0
Ends [] = Unit
Ends (c ∷ cs) = is_digit c ≡ false

read_from-Ends : (acc : ℕ) (cs : List ℕ) → Ends cs → read_from acc cs ≡ (acc, cs)
unfolding read_from
read_from-Ends acc [] e = refl
read_from-Ends acc (c ∷ cs) e = rw e refl

read_from-digit :
    (acc d : ℕ) (cs : List ℕ) → d < 10 → read_from acc (digit d ∷ cs) ≡ read_from (acc * 10 + d) cs
unfolding read_from
read_from-digit acc d cs small =
    let yes : is_digit (digit d) ≡ true = ground arith in
    let same : digit d - 48 ≡ d = omega arith in rw (yes, same) refl

read_from-digits :
    (fuel n : ℕ) (cs : List ℕ) → n < fuel → read_from 0 (digits fuel n ++ cs) ≡ read_from n cs
unfolding digits
read_from-digits zero n cs f = absurd (omega arith)
read_from-digits (suc fuel) n cs f = elim (Bool-cases (ltb n 10)) [
  | inl b ↦ rw b (
      let small : n < 10 = ground (arith, b) in
      read_from-digit 0 n cs small
      ∙ ap (λ k. read_from k cs) (let e : 0 * 10 + n ≡ n = omega arith in e))
  | inr b ↦ rw b (
      let large : 10 ≤ n = ground (arith, b) in
      let front = digits fuel (n / 10) in
      ap (read_from 0) (append_assoc front (digit (n % 10) ∷ []) cs)
      ∙ read_from-digits fuel (n / 10) (digit (n % 10) ∷ cs) (omega arith)
      ∙ read_from-digit (n / 10) (n % 10) cs (omega arith)
      ∙ ap (λ k. read_from k cs) (let e : n / 10 * 10 + n % 10 ≡ n = omega arith in e))
]

-- A decimal number that no digit follows is read back.
pub read_from-decimal : (n : ℕ) (cs : List ℕ) → Ends cs → read_from 0 (decimal n ++ cs) ≡ (n, cs)
unfolding decimal
read_from-decimal n cs e = read_from-digits (suc n) n cs (omega arith) ∙ read_from-Ends n cs e
