-- ===== src/Jit/Comparison.antt =====
-- `JitCompiler::compile_comparison` of src/jit/compiler.cpp: the kernel that compares 64 rows with
-- one threshold. The prints of the function and `dump_bytecode` have no effect on the code.
pub mod Blocks
pub mod Correct
use Prim.Native.Nat.{bit_and}
use apex_engine.Common.{ℕ, zero, suc, ◌-◌, List, [], ◌∷◌, ◌++◌, Option, ◌==◌, if◌then◌else◌}
use apex_engine.Word.{shr, ones64, two64}
use apex_engine.Arm64.{
  Instr, and_reg, orr_reg, bic_reg, mov_reg, mov_imm, add_imm, ldr_post, ret, KernelFunc,
  JitRuntime,
}

-- `Mem(pointer_walker).post(-8)`
abbrev pub minus8 : ℕ
minus8 = two64 - 8

-- One unrolled block. x9 is GT, x10 is EQ, x11 walks the planes, x12 is the plane, x13 scratch.
pub comparison_block : (threshold bit : ℕ) → List Instr
comparison_block threshold bit =
    let threshold_bit = bit_and (shr threshold bit) 1 in
    ldr_post 12 11 minus8
    ∷ (if threshold_bit == 0
        then and_reg 13 10 12 ∷ orr_reg 9 9 13 ∷ bic_reg 10 10 12 ∷ []
        else and_reg 10 10 12 ∷ [])

-- `for (bit = count - 1; bit >= 0; --bit)`
pub comparison_blocks : (threshold count : ℕ) → List Instr
comparison_blocks threshold zero = []
comparison_blocks threshold (suc bit) =
    comparison_block threshold bit ++ comparison_blocks threshold bit

-- The code, and the kernel that the runtime makes of it, `none` for its `nullptr`.
pub comparison_code : ℕ → List Instr
comparison_code threshold =
    orr_reg 9 31 31
    ∷ mov_imm 10 ones64
    ∷ add_imm 11 0 504
    ∷ (comparison_blocks threshold 64 ++ mov_reg 0 9 ∷ ret 30 ∷ [])

unfoldable pub compile_comparison : JitRuntime → ℕ → Option KernelFunc
compile_comparison rt threshold = rt.add_code (comparison_code threshold)
