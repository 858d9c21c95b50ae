-- ===== src/Leak/Verdict.antt =====
-- examples/leak_check.rs: what the verdict says of the live bytes.
use mtp.Base.{ℕ, ◌+◌, ◌%◌, ◌^◌, ◌<◌, ◌≤◌, ◌≡◌, ◌↔◌, arith, refl, true, false}
use mtp.Leak.Counting.{modulus, growth, exceeds, budget, verdict}
use mtp.Leak.Live.{Memory, total, Reach, empty, Reach-Counts}

-- The growth that `live() - base` shows.
growth_lem :
    (z t0 t1 live base : ℕ)
    → base ≡ (z + t0) % modulus
    → live ≡ (z + t1) % modulus
    → t0 < 2 ^ 63
    → t1 < 2 ^ 63
    → (exceeds (growth live base) ≡ false) ↔ (t1 ≤ t0 + budget)
unfolding growth exceeds
growth_lem z t0 t1 live base e f small small' = ground (arith, e, f)

-- Each block fits: fewer than 2 ^ 63 bytes are live.
abbrev pub Small : Memory → Type 0
Small m = total m.blocks < 2 ^ 63

both_lem : (a b : ℕ) → (verdict a b ≡ true) ↔ ((exceeds a ≡ false) × (exceeds b ≡ false))
unfolding verdict
both_lem a b = ground arith

-- The check passes exactly if neither workload left many bytes behind: whatever the program allocated,
-- freed and resized from its start to the base of the codec phase, from there to its end, from
-- there to the base of the state machine's phase and from there to its end, if fewer than 2 ^ 63
-- bytes are live at these four points, the verdict is a pass if and only if over each phase the
-- bytes of the live blocks grew by at most 64 KiB.
pub verdict_iff :
    (base end base' end' : Memory)
    → Reach empty base
    → Reach base end
    → Reach end base'
    → Reach base' end'
    → Small base
    → Small end
    → Small base'
    → Small end'
    → (verdict (growth end.live base.live) (growth end'.live base'.live) ≡ true) ↔ (
        (total end.blocks ≤ total base.blocks + budget)
        × (total end'.blocks ≤ total base'.blocks + budget))
verdict_iff base end base' end' r0 r1 r2 r3 s0 s1 s2 s3 =
    let c0 = Reach-Counts 0 empty base r0 (unfold total in refl) in
    let c1 = Reach-Counts 0 base end r1 c0 in
    let c2 = Reach-Counts 0 end base' r2 c1 in
    let c3 = Reach-Counts 0 base' end' r3 c2 in
    let codec =
      growth_lem 0 (total base.blocks) (total end.blocks) end.live base.live c0 c1 s0 s1 in
    let machine =
      growth_lem 0 (total base'.blocks) (total end'.blocks) end'.live base'.live c2 c3 s2 s3 in
    let both = both_lem (growth end.live base.live) (growth end'.live base'.live) in
    (
      λ v. (let (a, b) = both.0 v in (codec.0 a, machine.0 b)),
      λ h. both.1 (codec.1 h.0, machine.1 h.1),
    )
