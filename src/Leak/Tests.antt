-- ===== src/Leak/Tests.antt =====
-- examples/leak_check.rs: runs of the workloads and of the verdict.
use mtp.Base.{◌+◌, ◌≤◌, ◌≡◌, ◌↔◌, refl, arith, true, [], ◌∷◌, replicate}
use mtp.Error.{ok}
use mtp.Leak.Counting.{growth, verdict, budget, alloc, dealloc, realloc}
use mtp.Leak.Live.{Memory, Step, Reach, empty, total}
use mtp.Leak.Verdict.{verdict_iff}
use mtp.Leak.Cycles.{codec_cycle, state_machine_cycle, Round}
use mtp.Leak.Workloads.{three, copies, IsPassed, workloads_pass}

both_workloads :
    (codec_cycle 2 ≡ ok (copies 2 three))
    × ((r : Round) × (state_machine_cycle 2 ≡ ok (replicate 2 r)) × IsPassed r)
both_workloads = workloads_pass 2

-- A block is allocated; another is allocated, grows and is freed; then one of 70000 bytes is left.
abbrev base : Memory
base = record { blocks = (1, 100) ∷ []; live = 100 }

abbrev after : Memory
after = record { blocks = (1, 100) ∷ []; live = 100 }

abbrev leaked : Memory
leaked = record { blocks = (3, 70000) ∷ (1, 100) ∷ []; live = 70100 }

base_reached : Reach empty base
unfolding alloc
base_reached = Reach.next Reach.here (Step.allocates 1 100)

after_reached : Reach base after
unfolding alloc dealloc realloc
after_reached =
    Reach.next
      (Reach.next (Reach.next Reach.here (Step.allocates 2 10))
        (Step.resizes [] ((1, 100) ∷ []) 2 2 10 50 refl))
      (Step.frees [] ((1, 100) ∷ []) 2 50 refl)

leaked_reached : Reach after leaked
unfolding alloc
leaked_reached = Reach.next Reach.here (Step.allocates 3 70000)

verdict_iff_example :
    (verdict (growth after.live base.live) (growth leaked.live after.live) ≡ true) ↔ (
      (total after.blocks ≤ total base.blocks + budget)
      × (total leaked.blocks ≤ total after.blocks + budget))
verdict_iff_example =
    verdict_iff base after after leaked base_reached after_reached Reach.here leaked_reached
      (unfold total in omega arith) (unfold total in omega arith) (unfold total in omega arith)
      (unfold total in omega arith)
