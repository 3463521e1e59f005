-- ===== src/Jit/Comparison/Blocks.antt =====
-- The unrolled blocks of the comparison kernel, run from the top bit down.
use Prim.Native.Nat.{bit_and}
use apex_engine.Common.{
  ℕ, zero, suc, ◌+◌, ◌*◌, ◌≤◌, ◌<◌, ◌≡◌, refl, ◌∙◌, ap, arith, inl, inr, not, List, ◌++◌, ◌==◌,
  Bool-cases,
}
use mathlib.Core.List.{append_assoc}
use apex_engine.Word.{test_bit, shr, add64, two64}
use apex_engine.Word.Ext.{bit_and-one}
use apex_engine.Word.Shift.{test_bit-shr}
use apex_engine.Word.Compare.{IsCompared, IsPlane, IsCompared-step_clear, IsCompared-step_set}
use apex_engine.Arm64.{Instr, Cpu, exec, run}
use apex_engine.Jit.Comparison.{minus8, comparison_block, comparison_blocks}

-- The 64 words from address `p` on are the bit planes of the values `a`.
pub record HasPlanes (memory : ℕ → ℕ) (p : ℕ) (a : ℕ → ℕ) : Type 0 where
  pub planes : (k : ℕ) → k < 64 → IsPlane k a (memory (p + 8 * k))
  pub fits : p + 512 ≤ two64

threshold_bit : (t k : ℕ) → (bit_and (shr t k) 1 == 0) ≡ not (test_bit t k)
threshold_bit t k =
    bit_and-one (shr t k)
    ∙ ap not (test_bit-shr t k 0 ∙ ap (test_bit t) {x = k + 0} {y = k} (omega arith))

module _ {memory : ℕ → ℕ} {p : ℕ} {a : ℕ → ℕ} (input : HasPlanes memory p a) (t : ℕ) where
  -- With `k` bits left, the masks compare the higher bits, and the pointer is at plane `k - 1`.
  pub record State (k : ℕ) (c : Cpu) : Type 0 where
    pub compared : IsCompared k a (λ r. t) (c.reg 9) (c.reg 10)
    pub walker : (i : ℕ) → k ≡ suc i → c.reg 11 ≡ p + 8 * i
    pub same_mem : c.mem ≡ memory

  block_runs :
      (k : ℕ) (rest : List Instr) (c : Cpu)
      → run (comparison_block t k ++ rest) c ≡ run rest (run (comparison_block t k) c)
  unfolding run comparison_block
  block_runs k rest c = elim (Bool-cases (bit_and (shr t k) 1 == 0)) [
    | inl e ↦ rw e refl
    | inr e ↦ rw e refl
  ]

  loaded : {k : ℕ} {c : Cpu} → k < 64 → State (suc k) c → IsPlane k a (c.mem (c.reg 11))
  loaded {k} {c} h s = rw (s.same_mem, s.walker k refl) (input.planes k h)

  stepped :
      {k : ℕ} {c : Cpu}
      → k < 64
      → State (suc k) c
      → (i : ℕ) → k ≡ suc i
      → add64 (c.reg 11) minus8 ≡ p + 8 * i
  unfolding add64
  stepped {k} {c} h s i e =
      let at : c.reg 11 ≡ p + 8 * k = s.walker k refl in omega (arith, input.fits)

  block-State :
      (k : ℕ) (c : Cpu) → k < 64 → State (suc k) c → State k (run (comparison_block t k) c)
  unfolding run comparison_block exec
  block-State k c h s = elim (Bool-cases (bit_and (shr t k) 1 == 0)) [
    | inl e ↦ rw e (record {
      compared =
          IsCompared-step_clear s.compared (loaded h s) (λ r. ground (arith, threshold_bit t k));
      walker = stepped h s;
      same_mem = s.same_mem;
    })
    | inr e ↦ rw e (record {
      compared =
          IsCompared-step_set s.compared (loaded h s) (λ r. ground (arith, threshold_bit t k));
      walker = stepped h s;
      same_mem = s.same_mem;
    })
  ]

  -- All blocks, followed by any code.
  pub blocks-State :
      (k : ℕ) (rest : List Instr) (c : Cpu)
      → k ≤ 64
      → State k c
      → (d : Cpu) × State 0 d × (run (comparison_blocks t k ++ rest) c ≡ run rest d)
  unfolding comparison_blocks
  blocks-State zero rest c h s = (c, s, refl)
  blocks-State (suc k) rest c h s =
      let (d, done, eq) =
        blocks-State k rest (run (comparison_block t k) c) (omega arith)
          (block-State k c (omega arith) s) in
      (
        d,
        done,
        ap (λ l. run l c) (append_assoc (comparison_block t k) (comparison_blocks t k) rest)
            ∙ block_runs k (comparison_blocks t k ++ rest) c
            ∙ eq,
      )
