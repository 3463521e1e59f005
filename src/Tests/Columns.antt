-- ===== src/Tests/Columns.antt =====
-- The slicer, the circuits, the comparison kernel and the gather at concrete inputs.
use apex_engine.Common.{
  ℕ, zero, suc, ◌<◌, ◌≡◌, refl, sym, ◌∙◌, arith, ◌∷◌, ◌++◌, some, ◌==◌, replicate, ltb, true, false,
  if◌then◌else◌,
}
use apex_engine.Word.{test_bit, IsU64, ones64}
use apex_engine.Word.Bitwise.{test_bit-zero}
use apex_engine.Word.Compare.{IsCompared, IsPlane, IsCompared-start}
use apex_engine.Slicer.{ColumnBuffer, word, slice}
use apex_engine.Slicer.Transpose.{slice-transposes}
use apex_engine.Arm64.{Cpu, KernelFunc, run, enter}
use apex_engine.Circuit.{emit_gt_64, emit_mux}
use apex_engine.Circuit.Laws.{AreGtRegs, emit_gt_64-compares, emit_mux-selects}
use apex_engine.Jit.Comparison.{compile_comparison, comparison_code}
use apex_engine.Jit.Comparison.Correct.{
  HoldsBuffer, IsColumn, slice-HasPlanes, compile_comparison-compares, slice-compare-marks,
}
use apex_engine.Gather.{Bytes, load64, load_le, load_row, gather_field}
use apex_engine.Gather.Loops.{IsFilled, Readable}
use apex_engine.Gather.Correct.{padded, gather_field-IsFilled}
use apex_engine.Engine.{buffer_memory}
use apex_engine.Engine.Chunks.{buffer_memory-holds}
use apex_engine.Tests.Machine.{idle, neon, neon-IsLanewise, interpreter, interpreter-RunsCode}

abbrev column : ColumnBuffer
column = 5 ∷ 300 ∷ 7 ∷ replicate 61 0

zeros : (n r : ℕ) → word (replicate n 0) r ≡ 0
zeros zero r = refl
zeros (suc n) zero = refl
zeros (suc n) (suc r) = zeros n r

column_small : (r : ℕ) → IsU64 (word column r)
column_small zero = omega arith
column_small (suc zero) = omega arith
column_small (suc (suc zero)) = omega arith
column_small (suc (suc (suc r))) = rw (zeros 61 r) (omega arith)

column-IsColumn : IsColumn column
column-IsColumn = record { size = refl; small = column_small }

-- Bit 2 of the second row, 300, stands in plane 2.
slice-transposes_example : test_bit (word (slice neon column) 2) 1 ≡ true
unfolding test_bit
slice-transposes_example =
    slice-transposes neon-IsLanewise column (omega arith) 2 1 (omega arith) (omega arith)

abbrev planes_memory : ℕ → ℕ
planes_memory = buffer_memory 4096 (slice neon column)

planes_memory-HoldsBuffer : HoldsBuffer planes_memory 4096 (slice neon column)
planes_memory-HoldsBuffer = buffer_memory-holds 4096 (slice neon column) (omega arith)

abbrev kernel : ℕ → KernelFunc
kernel t memory p = (run (comparison_code t) (enter idle memory p)).reg 0

compiled : (t : ℕ) → compile_comparison interpreter t ≡ some (kernel t)
unfolding compile_comparison
compiled t = refl

-- 7 is greater than 6.
compile_comparison-compares_example : test_bit (kernel 6 planes_memory 4096) 2 ≡ true
compile_comparison-compares_example =
    compile_comparison-compares interpreter interpreter-RunsCode 6 (kernel 6) (omega arith)
      (compiled 6) planes_memory 4096 (word column)
      (slice-HasPlanes neon-IsLanewise column-IsColumn planes_memory-HoldsBuffer)
      column-IsColumn.small 2 (omega arith)

-- 5 is not greater than 6.
slice-compare-marks_example : test_bit (kernel 6 planes_memory 4096) 0 ≡ false
slice-compare-marks_example =
    slice-compare-marks neon-IsLanewise interpreter interpreter-RunsCode 6 (kernel 6) (omega arith)
      (compiled 6) column column-IsColumn planes_memory 4096 planes_memory-HoldsBuffer 0
      (omega arith)

abbrev registers : Cpu
registers = record {
  reg = λ r.
      if ltb r 1
      then 12
      else if ltb r 2
      then 10
      else if ltb r 3
      then 6
      else if ltb r 10
      then 0
      else ones64;
  mem = λ address. 0;
  sp = 0;
  compared = (0, 0);
}

-- The mask 12 chooses bit 2 of 10, which is clear, not that of 6, which is set.
emit_mux-selects_example : test_bit ((run (emit_mux 0 1 2 3 4) registers).reg 3) 2 ≡ false
unfolding test_bit
emit_mux-selects_example =
    emit_mux-selects 0 1 2 3 4 (ground arith) (ground arith) registers 2 (omega arith)

abbrev bytes : Bytes
bytes = 1 ∷ 5 ∷ (replicate 7 0 ++ 1 ∷ 44 ∷ 1 ∷ (replicate 6 0 ++ 1 ∷ 7 ∷ replicate 7 0))

bytes_rows : (r : ℕ) → r < 3 → load_row bytes 0 9 1 r ≡ some (word column r)
unfolding load64 load_le
bytes_rows zero h = refl
bytes_rows (suc zero) h = refl
bytes_rows (suc (suc zero)) h = refl
bytes_rows (suc (suc (suc r))) h = absurd (omega arith)

bytes-Readable : Readable bytes 0 9 1 3 (word column)
bytes-Readable = record { row = bytes_rows }

-- Three rows of nine bytes, whose field is behind a tag byte.
gather_field-IsFilled_example :
    (b : ColumnBuffer) × (gather_field bytes 0 1 9 3 (replicate 64 1) ≡ some b)
    × IsFilled (padded 3 (word column)) 64 b
gather_field-IsFilled_example =
    gather_field-IsFilled bytes 0 1 9 3 (replicate 64 1) (word column) refl bytes-Readable

abbrev zero_bits : Cpu
zero_bits = record {
  reg = λ r. if r == 3 then ones64 else 0;
  mem = λ address. 0;
  sp = 0;
  compared = (0, 0);
}

gt-AreGtRegs : AreGtRegs 0 1 2 3
gt-AreGtRegs = record {
  x_free = ground arith;
  y_free = ground arith;
  gt_free = ground arith;
  eq_free = ground arith;
  apart = ground arith;
}

zero-IsPlane : (k : ℕ) → IsPlane k (λ r. 0) 0
zero-IsPlane k = record { bits = λ r h. test_bit-zero r ∙ sym (test_bit-zero k) }

-- The top bits of rows that are all zero.
emit_gt_64-compares_example :
    let d = run (emit_gt_64 0 1 2 3) zero_bits in
    IsCompared 63 (λ r. 0) (λ r. 0) (d.reg 2) (d.reg 3) × (d.mem ≡ zero_bits.mem) × (d.reg 9 ≡ 0)
unfolding test_bit
emit_gt_64-compares_example =
    emit_gt_64-compares 0 1 2 3 gt-AreGtRegs zero_bits
      (IsCompared-start (λ r. 0) (λ r. 0) (λ r. omega arith) (λ r. omega arith)) (zero-IsPlane 63)
      (zero-IsPlane 63) 9 (omega arith) (omega arith) (omega arith) (omega arith)
