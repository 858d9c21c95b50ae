-- ===== src/Leak/Live.antt =====
-- examples/leak_check.rs: the counter is the number of live bytes.
use mtp.Base.{ℕ, ◌+◌, ◌%◌, ◌≡◌, sym, ◌∙◌, ap, arith, List, [], ◌∷◌, ◌++◌, none, some}
use mtp.Leak.Counting.{
  modulus, fetch_add, fetch_sub, difference, alloc, dealloc, alloc_zeroed, realloc,
}

-- The live blocks, each with its pointer and its size, and the counter.
pub record Memory : Type 0 where
  pub blocks : List (ℕ × ℕ)
  pub live : ℕ

unfoldable pub total : List (ℕ × ℕ) → ℕ
total [] = 0
total ((_, size) ∷ bs) = size + total bs

-- What a program does with the allocator: it frees and resizes live blocks, of the size that they
-- have, as the contract of `GlobalAlloc` wants.
pub data Step (m : Memory) : Memory → Type 0 where
  allocates :
      (p size : ℕ)
      → Step m (record { blocks = (p, size) ∷ m.blocks; live = (alloc (some p) size m.live).0 })
  allocates_zeroed :
      (p size : ℕ)
      → Step m
          (record { blocks = (p, size) ∷ m.blocks; live = (alloc_zeroed (some p) size m.live).0 })
  fails : (size : ℕ) → Step m (record m { live = (alloc none size m.live).0 })
  fails_zeroed : (size : ℕ) → Step m (record m { live = (alloc_zeroed none size m.live).0 })
  frees :
      (xs ys : List (ℕ × ℕ)) (p size : ℕ)
      → m.blocks ≡ xs ++ ((p, size) ∷ ys)
      → Step m (record { blocks = xs ++ ys; live = dealloc size m.live })
  resizes :
      (xs ys : List (ℕ × ℕ)) (p q size new_size : ℕ)
      → m.blocks ≡ xs ++ ((p, size) ∷ ys)
      → Step m (record {
        blocks = xs ++ ((q, new_size) ∷ ys);
        live = (realloc (some q) size new_size m.live).0;
      })
  fails_to_resize :
      (xs ys : List (ℕ × ℕ)) (p size new_size : ℕ)
      → m.blocks ≡ xs ++ ((p, size) ∷ ys)
      → Step m (record m { live = (realloc none size new_size m.live).0 })

pub data Reach (m : Memory) : Memory → Type 0 where
  here : Reach m m
  next : {n o : Memory} → Reach m n → Step n o → Reach m o

total-append : (xs ys : List (ℕ × ℕ)) → total (xs ++ ys) ≡ total xs + total ys
unfolding total
total-append [] ys = omega arith
total-append (x ∷ xs) ys = omega (arith, total-append xs ys)

total-middle :
    (xs ys : List (ℕ × ℕ)) (p size : ℕ) → total (xs ++ ((p, size) ∷ ys)) ≡ size + total (xs ++ ys)
unfolding total
total-middle xs ys p size = omega (arith, total-append xs ((p, size) ∷ ys), total-append xs ys)

-- The counter counts the live bytes, from a number `z` on.
abbrev pub Counts : ℕ → Memory → Type 0
Counts z m = m.live ≡ (z + total m.blocks) % modulus

allocated_lem :
    (z t live size : ℕ)
    → live ≡ (z + t) % modulus
    → fetch_add live size ≡ (z + (size + t)) % modulus
allocated_lem z t live size e = omega arith

freed_lem :
    (z t live size : ℕ)
    → live ≡ (z + (size + t)) % modulus
    → fetch_sub live size ≡ (z + t) % modulus
freed_lem z t live size e = omega arith

resized_lem :
    (z t live size new_size : ℕ)
    → live ≡ (z + (size + t)) % modulus
    → fetch_add live (difference new_size size) ≡ (z + (new_size + t)) % modulus
resized_lem z t live size new_size e = omega arith

Step-Counts : (z : ℕ) (m n : Memory) → Step m n → Counts z m → Counts z n
unfolding alloc alloc_zeroed dealloc realloc total
Step-Counts z m _ (Step.allocates p size) c = allocated_lem z (total m.blocks) m.live size c
Step-Counts z m _ (Step.allocates_zeroed p size) c = allocated_lem z (total m.blocks) m.live size c
Step-Counts z m _ (Step.fails size) c = c
Step-Counts z m _ (Step.fails_zeroed size) c = c
Step-Counts z m _ (Step.frees xs ys p size e) c =
    freed_lem z (total (xs ++ ys)) m.live size
      (c ∙ ap (λ t. (z + t) % modulus) (ap total e ∙ total-middle xs ys p size))
Step-Counts z m _ (Step.resizes xs ys p q size new_size e) c =
    resized_lem z (total (xs ++ ys)) m.live size new_size
      (c ∙ ap (λ t. (z + t) % modulus) (ap total e ∙ total-middle xs ys p size))
    ∙ ap (λ t. (z + t) % modulus) (sym (total-middle xs ys q new_size))
Step-Counts z m _ (Step.fails_to_resize xs ys p size new_size e) c = c

-- Before the program starts.
abbrev pub empty : Memory
empty = record { blocks = []; live = 0 }

pub Reach-Counts : (z : ℕ) (m n : Memory) → Reach m n → Counts z m → Counts z n
Reach-Counts z m _ Reach.here c = c
Reach-Counts z m o (Reach.next {n} r s) c = Step-Counts z n o s (Reach-Counts z m n r c)
