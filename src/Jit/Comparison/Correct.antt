-- ===== src/Jit/Comparison/Correct.antt =====
-- The comparison kernel compares: alone, and behind the bit-slicer.
use apex_engine.Common.{
  ℕ, ◌+◌, ◌*◌, ◌≤◌, ◌<◌, ◌≡◌, refl, ◌∙◌, ap, arith, [], ◌∷◌, some, ltb, length,
}
use apex_engine.Word.{test_bit, add64, two64, ones64, IsU64}
use apex_engine.Word.Compare.{IsCompared-start, IsCompared-end}
use apex_engine.Arm64.{
  Cpu, exec, run, enter, mov_reg, ret, orr_reg, mov_imm, add_imm, JitRuntime, KernelFunc, RunsCode,
}
use apex_engine.Jit.Comparison.{comparison_code, compile_comparison}
use apex_engine.Jit.Comparison.Blocks.{HasPlanes, State, blocks-State}
use apex_engine.Slicer.{ColumnBuffer, Highway, word, slice}
use apex_engine.Slicer.Vectors.{IsLanewise}
use apex_engine.Slicer.Transpose.{slice-transposes}

module _ {memory : ℕ → ℕ} {p : ℕ} {a : ℕ → ℕ} (input : HasPlanes memory p a) (t : ℕ) where
  -- The state behind the prologue.
  abbrev prepared : Cpu → Cpu
  prepared regs =
      exec (add_imm 11 0 504)
        (exec (mov_imm 10 ones64) (exec (orr_reg 9 31 31) (enter regs memory p)))

  prepared-State :
      (regs : Cpu) → ((r : ℕ) → IsU64 (a r)) → IsU64 t → State input t 64 (prepared regs)
  unfolding exec add64
  prepared-State regs ha ht = record {
    compared = IsCompared-start a (λ r. t) ha (λ r. ht);
    walker = λ i e. omega (arith, input.fits);
    same_mem = refl;
  }

  code-compares :
      (regs : Cpu)
      → ((r : ℕ) → IsU64 (a r))
      → IsU64 t
      → (r : ℕ) → r < 64
      → test_bit ((run (comparison_code t) (enter regs memory p)).reg 0) r ≡ ltb t (a r)
  unfolding comparison_code run exec
  code-compares regs ha ht r h =
      let (d, done, eq) =
        blocks-State input t 64 (mov_reg 0 9 ∷ ret 30 ∷ []) (prepared regs) (omega arith)
          (prepared-State regs ha ht) in
      ap (λ (c : Cpu). test_bit (c.reg 0) r) eq ∙ (IsCompared-end done.compared r h).0

-- A kernel that `compile_comparison` returns, called on the bit planes of 64 values, returns the
-- mask whose bit `r` says whether value `r` is greater than the threshold, as unsigned numbers.
pub compile_comparison-compares :
    (rt : JitRuntime)
    → RunsCode rt
    → (t : ℕ) (fn : KernelFunc) → IsU64 t
    → compile_comparison rt t ≡ some fn
    → (memory : ℕ → ℕ) (p : ℕ) (a : ℕ → ℕ) → HasPlanes memory p a
    → ((r : ℕ) → IsU64 (a r))
    → (r : ℕ) → r < 64
    → test_bit (fn memory p) r ≡ ltb t (a r)
unfolding compile_comparison
compile_comparison-compares rt runs t fn ht e memory p a input ha r h =
    let (regs, same) = runs (comparison_code t) fn e memory p in
    ap (λ (n : ℕ). test_bit n r) same ∙ code-compares input t regs ha ht r h

-- The words of the array at address `p` are those of a column buffer.
pub record HoldsBuffer (memory : ℕ → ℕ) (p : ℕ) (b : ColumnBuffer) : Type 0 where
  pub words : (k : ℕ) → k < 64 → memory (p + 8 * k) ≡ word b k
  pub fits : p + 512 ≤ two64

-- A column whose 64 rows are unsigned 64-bit numbers.
pub record IsColumn (b : ColumnBuffer) : Type 0 where
  pub size : length b ≡ 64
  pub small : (r : ℕ) → IsU64 (word b r)

pub slice-HasPlanes :
    {hw : Highway} (w : IsLanewise hw) {memory : ℕ → ℕ} {p : ℕ} {col : ColumnBuffer}
    → IsColumn col
    → HoldsBuffer memory p (slice hw col)
    → HasPlanes memory p (word col)
slice-HasPlanes {hw} w {memory} {p} {col} c m = record {
  planes = λ k hk. record {
    bits = λ r hr.
        ap (λ (n : ℕ). test_bit n r) (m.words k hk)
        ∙ slice-transposes w col (omega (arith, c.size)) k r hk hr;
  };
  fits = m.fits;
}

-- One chunk of the single-field path: where memory holds what the bit-slicer makes of a column of
-- 64 unsigned 64-bit numbers, a kernel that compiled marks exactly the rows above the threshold.
pub slice-compare-marks :
    {hw : Highway}
    → IsLanewise hw
    → (rt : JitRuntime) → RunsCode rt
    → (t : ℕ) (fn : KernelFunc) → IsU64 t
    → compile_comparison rt t ≡ some fn
    → (col : ColumnBuffer) → IsColumn col
    → (memory : ℕ → ℕ) (p : ℕ) → HoldsBuffer memory p (slice hw col)
    → (r : ℕ) → r < 64
    → test_bit (fn memory p) r ≡ ltb t (word col r)
slice-compare-marks {hw} w rt runs t fn ht e col c memory p m =
    compile_comparison-compares rt runs t fn ht e memory p (word col) (slice-HasPlanes w c m)
      c.small
