-- ===== src/Runner.antt =====
-- src/compute/parallel_runner.cpp: the split of the rows over threads, and the worker. The workers
-- share nothing that they write, so the result does not depend on how they interleave, and the
-- model runs them one after another. `none` is a fault: a read outside the data, a null field.
pub mod Ranges
use apex_engine.Common.{
  ℤ, pos, negsuc, ℕ, zero, suc, ◌+◌, ◌-◌, ◌*◌, ◌/◌, min, Bool, true, false, List, [], ◌∷◌, Option,
  none, some, ltb, leb, get_or, set, replicate, if◌then◌else◌, ◌==◌, ◌>>=◌,
}
use apex_engine.Word.{add64}
use apex_engine.Word.Count.{popcount64}
use apex_engine.Slicer.{ColumnBuffer, Highway, slice}
use apex_engine.Gather.{Bytes, gather_field}
use apex_engine.Registry.{FieldDescriptor}
use apex_engine.Arm64.{ExprKernelFunc}
use apex_engine.Engine.{ExecutionMode, bit_sliced, scalar}

-- `if (num_threads <= 0) num_threads = 1;`
unfoldable pub thread_count : ℤ → ℕ
thread_count (pos zero) = 1
thread_count (pos (suc n)) = suc n
thread_count (negsuc n) = 1

-- Chunk boundaries at blocks of 64 rows.
unfoldable pub rows_per_thread : (total_rows num_threads : ℕ) → ℕ
rows_per_thread total_rows num_threads =
    let rows = total_rows / num_threads / 64 * 64 in if rows == 0 then 64 else rows

-- The loop that starts the threads, as the ranges that it gives them. `left` is `num_threads - t`.
unfoldable pub spawn : (left t total_rows num_threads rows : ℕ) → List (ℕ × ℕ)
spawn zero t total_rows num_threads rows = []
spawn (suc left) t total_rows num_threads rows =
    let start = t * rows in
    let end = if t == num_threads - 1 then total_rows else start + rows in
    let rest = spawn left (t + 1) total_rows num_threads rows in
    if leb total_rows start then [] else (start, end) ∷ rest

pub ranges : (total_rows num_threads : ℕ) → List (ℕ × ℕ)
ranges total_rows num_threads =
    spawn num_threads 0 total_rows num_threads (rows_per_thread total_rows num_threads)

pub record TaskConfig : Type 0 where
  pub kernel : ExprKernelFunc
  pub fields : List (Option FieldDescriptor)
  pub row_stride : ℕ
  pub mode : ExecutionMode

-- A worker's buffers and the pointers to their planes.
abbrev pub Planes : Type 0
Planes = List ColumnBuffer × List (Option ColumnBuffer)

module _ (hw : Highway) (bytes : Bytes) (config : TaskConfig) where
  -- `for (f = 0; f < num_fields && f < 8; ++f)`: the fields from `f` on, of a chunk at row `row`.
  pub gather_fields :
      (row rows_in_chunk f : ℕ) → List (Option FieldDescriptor) → Planes → Option Planes
  gather_fields row rows_in_chunk f [] p = some p
  gather_fields row rows_in_chunk f (none ∷ fields) p = if ltb f 8 then none else some p
  gather_fields row rows_in_chunk f (some d ∷ fields) (buffers, planes) =
      let body : Option Planes = (do
        gathered ←
            gather_field bytes (row * config.row_stride) d.offset config.row_stride rows_in_chunk
              (get_or buffers f [])
        let filled : ColumnBuffer = elim config.mode [
          | bit_sliced ↦ slice hw gathered
          | scalar ↦ gathered
        ]
        gather_fields row rows_in_chunk (f + 1) fields
            (set buffers f filled, set planes f (some filled))) in
      if ltb f 8 then body else some (buffers, planes)

  -- `for (row = start_row; row < end_row; row += 64)`. The scratchpad is not cleared in between.
  pub worker_loop : (fuel row end_row total : ℕ) → List ℕ → List ColumnBuffer → Option ℕ
  worker_loop zero row end_row total scratchpad buffers = some total
  worker_loop (suc fuel) row end_row total scratchpad buffers =
      let body : Option ℕ = (do
        (buffers', planes) ←
            gather_fields row (min 64 (end_row - row)) 0 config.fields (buffers, replicate 8 none)
        (mask, scratchpad') ← config.kernel planes scratchpad
        worker_loop fuel (row + 64) end_row (add64 total (popcount64 mask)) scratchpad' buffers') in
      if ltb row end_row then body else some total

  -- `worker_thread`; a failed `posix_memalign` counts nothing.
  pub worker_thread : Bool → List ColumnBuffer → ℕ × ℕ → Option ℕ
  worker_thread false buffers (start_row, end_row) = some 0
  worker_thread true buffers (start_row, end_row) =
      worker_loop ((end_row - start_row) / 64 + 1) start_row end_row 0 (replicate 512 0) buffers

  -- Every worker, joined, and the sum of the counts.
  pub join_all : Bool → List ColumnBuffer → List (ℕ × ℕ) → Option ℕ
  join_all scratch buffers [] = some 0
  join_all scratch buffers (r ∷ rs) = do
    count ← worker_thread scratch buffers r
    rest ← join_all scratch buffers rs
    some (add64 count rest)

  -- `ParallelRunner::run`
  pub run : (scratch : Bool) → List ColumnBuffer → (total_rows : ℕ) → ℤ → Option ℕ
  run scratch buffers total_rows num_threads =
      if total_rows == 0
      then some 0
      else join_all scratch buffers (ranges total_rows (thread_count num_threads))
