-- ===== src/Circuit.antt =====
-- src/jit/circuit_library.cpp: the bit-sliced circuits, as the instructions that they emit.
pub mod Laws
use apex_engine.Common.{ℕ, List, [], ◌∷◌}
use apex_engine.Arm64.{Instr, and_reg, orr_reg, bic_reg, eor_reg}

-- `emit_gt_64`; x6 and x7 are its scratch registers.
unfoldable pub emit_gt_64 : (a_bit b_bit gt_mask eq_mask : ℕ) → List Instr
emit_gt_64 a_bit b_bit gt_mask eq_mask =
    bic_reg 6 a_bit b_bit
    ∷ and_reg 7 eq_mask 6
    ∷ orr_reg gt_mask gt_mask 7
    ∷ eor_reg 6 a_bit b_bit
    ∷ bic_reg eq_mask eq_mask 6
    ∷ []

-- `emit_mux`: `out = (cond & a_mask) | (~cond & b_mask)`
unfoldable pub emit_mux : (cond_reg a_mask b_mask out tmp : ℕ) → List Instr
emit_mux cond_reg a_mask b_mask out tmp =
    and_reg tmp cond_reg a_mask ∷ bic_reg out b_mask cond_reg ∷ orr_reg out tmp out ∷ []
