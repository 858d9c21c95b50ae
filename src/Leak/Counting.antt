-- ===== src/Leak/Counting.antt =====
-- examples/leak_check.rs: the allocator that counts live bytes. The counter is an `i64`, a residue
-- modulo 2 ^ 64. `System` is the platform's allocator: what it returns, a pointer or null, is given.
use mtp.Base.{ℕ, ◌+◌, ◌-◌, ◌*◌, ◌%◌, ◌^◌, Bool, ◌&&◌, not, Option, none, some, ltb}

abbrev pub modulus : ℕ
modulus = 2 ^ 64

-- `fetch_add` and `fetch_sub` wrap.
abbrev pub fetch_add : ℕ → ℕ → ℕ
fetch_add live n = (live + n) % modulus

abbrev pub fetch_sub : ℕ → ℕ → ℕ
fetch_sub live n = (live + modulus - n % modulus) % modulus

-- `Counting::alloc`, with the counter afterwards.
unfoldable pub alloc : Option ℕ → ℕ → ℕ → ℕ × Option ℕ
alloc none size live = (live, none)
alloc (some p) size live = (fetch_add live size, some p)

-- `Counting::dealloc`.
unfoldable pub dealloc : ℕ → ℕ → ℕ
dealloc size live = fetch_sub live size

-- `Counting::alloc_zeroed`.
unfoldable pub alloc_zeroed : Option ℕ → ℕ → ℕ → ℕ × Option ℕ
alloc_zeroed none size live = (live, none)
alloc_zeroed (some p) size live = (fetch_add live size, some p)

-- `new_size as i64 - l.size() as i64`.
abbrev pub difference : ℕ → ℕ → ℕ
difference new_size size = (new_size + modulus - size % modulus) % modulus

-- `Counting::realloc`.
unfoldable pub realloc : Option ℕ → ℕ → ℕ → ℕ → ℕ × Option ℕ
realloc none size new_size live = (live, none)
realloc (some p) size new_size live = (fetch_add live (difference new_size size), some p)

-- `live() - base`.
unfoldable pub growth : ℕ → ℕ → ℕ
growth live base = (live + modulus - base % modulus) % modulus

abbrev pub budget : ℕ
budget = 64 * 1024

-- `growth > BUDGET`, of signed numbers.
unfoldable pub exceeds : ℕ → Bool
exceeds g = ltb g (2 ^ 63) && ltb budget g

-- The verdict of `main` on the growth of the two phases.
unfoldable pub verdict : ℕ → ℕ → Bool
verdict codec_growth sm_growth = not (exceeds codec_growth) && not (exceeds sm_growth)
