-- ===== src/Tests/Runner.antt =====
-- The runner's ranges at concrete inputs.
use apex_engine.Common.{◌≡◌, arith, [], ◌∷◌}
use apex_engine.Runner.{ranges}
use apex_engine.Runner.Ranges.{IsPartition, ranges-IsPartition, ranges_overrun}

-- 300 rows on four threads.
ranges-IsPartition_example : IsPartition 0 300 (ranges 300 4)
ranges-IsPartition_example = ranges-IsPartition 300 4 (omega arith) (omega arith)

-- Ten rows on two threads: 64 rows are read.
ranges_overrun_example : ranges 10 2 ≡ (0, 64) ∷ []
ranges_overrun_example = ranges_overrun 10 2 (omega arith) (omega arith) (omega arith)
