-- ===== src/Monitor/Windows.antt =====
-- src/monitor.rs: the SUERM as a sliding window over the received units.
use native.Mathlib.Nat.{zero-mod, suc-mod, mod-eq_of_lt, mod_self}
use mtp.Base.{
  ℕ, suc, ◌+◌, ◌%◌, ◌≤◌, ◌<◌, ◌≡◌, ◌⊎◌, ◌↔◌, inl, inr, refl, sym, ap, subst, ◌∙◌, arith, Bool, true,
  false, List, [], ◌∷◌, ◌++◌, length, leb, u32_max, if◌then◌else◌, Bool-cases,
}
use mtp.Monitor.Suerm.{Suerm, reset, record_su}
use mtp.Monitor.Bucket.{record_all, errors, Inv, reset-Inv, record_su-Inv, record_su_frame}
use mtp.Monitor.Rate.{record_all-failed, leaked, record_su_step}

-- One if the unit of this number is the last of an interval.
abbrev pub is_last : ℕ → ℕ → ℕ
is_last interval number = if leb (number % interval) 0 then 1 else 0

-- The intervals that end in a row of units of which so many come before.
abbrev pub leaks : ℕ → ℕ → List Bool → ℕ
leaks interval before [] = 0
leaks interval before (_ ∷ es) = is_last interval (suc before) + leaks interval (suc before) es

-- A window of the units received after the first `start`, in which the errors exceed the leaks by
-- the threshold.
pub record Window (threshold interval start : ℕ) (es : List Bool) : Type 0 where
  pub before : List Bool
  pub inside : List Bool
  pub after : List Bool
  pub split : es ≡ before ++ (inside ++ after)
  pub exceeds : threshold + leaks interval (start + length before) inside ≤ errors inside

-- A window that begins at once, with `count` errors in the bucket.
record Opening (threshold interval start count : ℕ) (es : List Bool) : Type 0 where
  inside : List Bool
  after : List Bool
  split : es ≡ inside ++ after
  exceeds : threshold + leaks interval start inside ≤ count + errors inside

-- The monitor has received `n` units since the reset.
pub record At (threshold interval n : ℕ) (m : Suerm) : Type 0 where
  pub inv : Inv m
  pub limit : m.threshold ≡ threshold
  pub period : m.decrement_interval ≡ interval
  pub phase : m.received_since_leak ≡ n % interval

-- The next number ends an interval exactly if the phase is at its end.
suc-mod_cases :
    (n d : ℕ)
    → n % d < d
    → (suc n % d ≡ (if leb d (n % d + 1) then 0 else n % d + 1))
      × (is_last d (suc n) ≡ (if leb d (n % d + 1) then 1 else 0))
suc-mod_cases n d h = elim (Bool-cases (leb d (n % d + 1))) [
  | inl b ↦
      (let e : suc n % d ≡ 0 = suc-mod n d ∙ ap (λ k. k % d) (ground (arith, b, h)) ∙ mod_self d in
        ground (arith, e, b))
  | inr b ↦
      (let e : suc n % d ≡ suc (n % d) = suc-mod n d ∙ mod-eq_of_lt (ground (arith, b)) in
        ground (arith, e, b))
]

received_lem :
    (e : Bool) (m : Suerm)
    → Inv m
    → (record_su e m).0.received_since_leak ≡ (
        if leb m.decrement_interval (m.received_since_leak + 1)
        then 0
        else m.received_since_leak + 1)
unfolding record_su
received_lem e m v = ground arith

-- The count is never more than the errors that did not leak.
count_bound :
    (e : Bool) (m : Suerm)
    → Inv m
    → ((record_su e m).0.count + leaked m ≤ m.count + errors (e ∷ []))
      ⊎ ((record_su e m).0.count ≡ 0)
unfolding record_su
count_bound e m v = ground arith

-- What makes the monitor fail is a count that has reached the threshold.
judged_lem :
    (e : Bool) (m : Suerm)
    → m.failed ≡ false
    → (record_su e m).0.failed ≡ true
    → m.threshold ≤ (record_su e m).0.count
unfolding record_su
judged_lem e m f g = ground arith

errors-cons : (e : Bool) (es : List Bool) → errors (e ∷ es) ≡ errors (e ∷ []) + errors es
errors-cons true es = omega arith
errors-cons false es = omega arith

-- The monitor after `n` units, and the threshold and the interval that it was given.
module _ (t d : ℕ) where
  before_end : (n : ℕ) (m : Suerm) → At t d n m → n % d < d
  before_end n m v = ground (arith, v.inv.received)

  leaked_lem : (n : ℕ) (m : Suerm) → At t d n m → leaked m ≡ is_last d (suc n)
  leaked_lem n m v = rw v.phase (rw v.period (sym (suc-mod_cases n d (before_end n m v)).1))

  record_su-At : (n : ℕ) (e : Bool) (m : Suerm) → At t d n m → At t d (suc n) (record_su e m).0
  record_su-At n e m v = record {
    inv = record_su-Inv e m v.inv;
    limit = (record_su_frame e m).0 ∙ v.limit;
    period = (record_su_frame e m).1 ∙ v.period;
    phase =
        received_lem e m v.inv
        ∙ rw v.phase (rw v.period refl)
        ∙ sym (suc-mod_cases n d (before_end n m v)).0;
  }

  -- A full window from here on makes the monitor fail.
  inside_fails :
      (inside after : List Bool) (n : ℕ) (m : Suerm)
      → At t d n m
      → t + leaks d n inside ≤ m.count + errors inside
      → (record_all (inside ++ after) m).failed ≡ true
  unfolding record_all
  inside_fails [] after n m v h = elim (Bool-cases m.failed) [
    | inl f ↦ record_all-failed after m f
    | inr f ↦ absurd (omega (arith, v.inv.flag f, v.limit, h))
  ]
  inside_fails (e ∷ es) after n m v h =
      let m' = (record_su e m).0 in
      elim (record_su_step e m v.inv).1 [
        | inl f ↦ record_all-failed (es ++ after) m' f
        | inr c ↦
            inside_fails es after (suc n) m' (record_su-At n e m v)
              (omega (arith, h, c, errors-cons e es, leaked_lem n m v))
      ]

  before_fails :
      (before inside after : List Bool) (n : ℕ) (m : Suerm)
      → At t d n m
      → t + leaks d (n + length before) inside ≤ errors inside
      → (record_all (before ++ (inside ++ after)) m).failed ≡ true
  unfolding record_all
  before_fails [] inside after n m v h = inside_fails inside after n m v (ground arith)
  before_fails (e ∷ es) inside after n m v h =
      before_fails es inside after (suc n) (record_su e m).0 (record_su-At n e m v)
        (subst (λ k. t + leaks d k inside ≤ errors inside) (omega arith) h)

  -- The first unit joins the window, or the bucket is empty after it and the window begins later.
  first_joins :
      (e : Bool) (es : List Bool) (n : ℕ) (m : Suerm)
      → At t d n m
      → Opening t d (suc n) (record_su e m).0.count es
      → Opening t d n m.count (e ∷ es) ⊎ Window t d n (e ∷ es)
  first_joins e es n m v o = elim (count_bound e m v.inv) [
    | inl c ↦ inl (record {
      inside = e ∷ o.inside;
      after = o.after;
      split = ap (λ k. e ∷ k) o.split;
      exceeds = omega (arith, o.exceeds, c, errors-cons e o.inside, leaked_lem n m v);
    })
    | inr c ↦ inr (record {
      before = e ∷ [];
      inside = o.inside;
      after = o.after;
      split = ap (λ k. e ∷ k) o.split;
      exceeds =
          (let later : t + leaks d (suc n) o.inside ≤ errors o.inside =
              omega (arith, o.exceeds, c) in
            subst (λ k. t + leaks d k o.inside ≤ errors o.inside) (omega arith) later);
    })
  ]

  first_precedes :
      (e : Bool) (es : List Bool) (n : ℕ) → Window t d (suc n) es → Window t d n (e ∷ es)
  first_precedes e es n w = record {
    before = e ∷ w.before;
    inside = w.inside;
    after = w.after;
    split = ap (λ k. e ∷ k) w.split;
    exceeds = subst (λ k. t + leaks d k w.inside ≤ errors w.inside) (omega arith) w.exceeds;
  }

  -- A monitor that fails on these units has seen a full window of them.
  fails-Window :
      (es : List Bool) (n : ℕ) (m : Suerm)
      → At t d n m
      → m.failed ≡ false
      → (record_all es m).failed ≡ true
      → Opening t d n m.count es ⊎ Window t d n es
  unfolding record_all
  fails-Window [] n m v f g = absurd (ground (arith, f, g))
  fails-Window (e ∷ es) n m v f g =
      let m' = (record_su e m).0 in
      elim (Bool-cases m'.failed) [
        | inl f' ↦ first_joins e es n m v (record {
          inside = [];
          after = es;
          split = refl;
          exceeds = omega (arith, judged_lem e m f f', v.limit);
        })
        | inr f' ↦ elim (fails-Window es (suc n) m' (record_su-At n e m v) f' g) [
          | inl o ↦ first_joins e es n m v o
          | inr w ↦ inr (first_precedes e es n w)
        ]
      ]

-- After a reset, with a positive threshold and a positive interval that both fit a `u32`, the monitor
-- has declared a failure exactly if among the received units there is a row of consecutive ones with
-- as many errors as the threshold and one more for each interval that ends in that row.
pub record_all-Window_iff :
    (es : List Bool) (m : Suerm)
    → 0 < m.decrement_interval
    → m.decrement_interval ≤ u32_max
    → 0 < m.threshold
    → m.threshold ≤ u32_max
    → ((record_all es (reset m)).failed ≡ true) ↔ Window m.threshold m.decrement_interval 0 es
record_all-Window_iff es m d d32 t t32 =
    let at : At m.threshold m.decrement_interval 0 (reset m) = record {
      inv = reset-Inv m d d32 t t32;
      limit = unfold reset in refl;
      period = unfold reset in refl;
      phase = unfold reset in sym (zero-mod m.decrement_interval);
    } in
    let t' = m.threshold in
    let d' = m.decrement_interval in
    (
      λ f. elim (fails-Window t' d' es 0 (reset m) at (unfold reset in refl) f) [
        | inl o ↦ record {
          before = [];
          inside = o.inside;
          after = o.after;
          split = o.split;
          exceeds = unfold reset in omega (arith, o.exceeds);
        }
        | inr w ↦ w
      ],
      λ w. rw w.split (before_fails t' d' w.before w.inside w.after 0 (reset m) at w.exceeds),
    )
