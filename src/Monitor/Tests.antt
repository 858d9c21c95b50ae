-- ===== src/Monitor/Tests.antt =====
-- src/monitor.rs: runs of the two monitors.
use mtp.Base.{◌↔◌, ◌++◌, ◌≡◌, refl, arith, Bool, true, false, List, [], ◌∷◌, leb}
use mtp.Monitor.Aerm.{Aerm, restart, is_tripped}
use mtp.Monitor.Suerm.{Suerm, reset, record_su}
use mtp.Monitor.Bucket.{record_all}
use mtp.Monitor.Trip.{record_errors, record_errors-is_tripped}
use mtp.Monitor.Rate.{record_all_fails, record_all_holds}
use mtp.Monitor.Windows.{Window, record_all-Window_iff}
use mtp.Monitor.Blocks.{record_blocks, record_blocks_holds}

-- Three errors fail it, and four units leak one.
abbrev small : Suerm
small = record {
  count = 2;
  threshold = 3;
  decrement_interval = 4;
  received_since_leak = 1;
  failed = true;
}

abbrev bad : List Bool
bad = true ∷ false ∷ true ∷ true ∷ true ∷ []

abbrev quiet : List Bool
quiet = false ∷ true ∷ false ∷ false ∷ []

fails : (record_all bad (reset small)).failed ≡ true
unfolding record_all reset record_su
fails = refl

record_all_fails_example : (record_all bad (reset small)).failed ≡ true
record_all_fails_example =
    record_all_fails small (omega arith) (omega arith) (omega arith) (omega arith) bad (omega arith)

-- Three errors of which the last ends an interval, and then one more: the leak comes first.
abbrev borderline : List Bool
borderline = false ∷ true ∷ true ∷ true ∷ []

leaks_first : (record_all borderline (reset small)).failed ≡ false
unfolding record_all reset record_su
leaks_first = refl

one_more : (record_all (borderline ++ (true ∷ [])) (reset small)).failed ≡ true
unfolding record_all reset record_su
one_more = refl

record_all-Window_iff_example :
    ((record_all borderline (reset small)).failed ≡ true) ↔ Window 3 4 0 borderline
record_all-Window_iff_example =
    record_all-Window_iff borderline small (omega arith) (omega arith) (omega arith) (omega arith)

record_all_holds_example : (record_all quiet (reset small)).failed ≡ false
record_all_holds_example = record_all_holds small quiet (omega arith)

record_blocks_holds_example :
    ((record_blocks (quiet ∷ quiet ∷ []) (reset small)).failed ≡ false)
    × ((record_blocks (quiet ∷ quiet ∷ []) (reset small)).count ≡ 0)
record_blocks_holds_example =
    record_blocks_holds (quiet ∷ quiet ∷ []) small (omega arith) (omega arith) (omega arith)
      (omega arith) (ground arith)

abbrev fresh : Aerm
fresh = record { count = 7; threshold = 1 }

record_errors-is_tripped_example : is_tripped (record_errors 4 (restart 4 fresh)) ≡ leb 4 4
record_errors-is_tripped_example = record_errors-is_tripped 4 4 fresh (omega arith)
