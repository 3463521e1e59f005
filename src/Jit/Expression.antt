-- ===== src/Jit/Expression.antt =====
-- `JitCompiler::compile_expression` of src/jit/compiler.cpp, the code of its kernel, which evaluates
-- an expression on bit planes. x19 holds the field planes, x20 the scratchpad, x15 the bit, x21 to
-- x28 the carries, and x8 to x13 the masks of three comparisons.
pub mod Compile
pub mod Adder
pub mod Limits
pub mod Totality
pub mod Writes
pub mod Comparisons
pub mod Columns
pub mod Operands
pub mod Sums
pub mod Steps
pub mod Summed
pub mod Nodes
pub mod Bits
pub mod Start
pub mod Masks
pub mod MaskBits
pub mod MaskStart
pub mod Frame
pub mod Shape
pub mod Labels
pub mod Loops
pub mod Correct
pub mod Numbers
pub mod Carries
pub mod Constants
pub mod Sliced
pub mod Final
pub mod Analyzed
pub mod Numbered
pub mod Kernel
use apex_engine.Common.{
  ℕ, zero, suc, ◌+◌, ◌-◌, ◌*◌, ◌%◌, ℤ, pos, negsuc, Bool, true, false, List, [], ◌∷◌, ◌++◌, Option,
  none, some, ltb, leb, ◌==◌, ◌&&◌, if◌then◌else◌,
}
use apex_engine.Word.{two64, ones64}
use apex_engine.Arm64.{
  Instr, Cond, hs, lt_signed, and_reg, orr_reg, eor_reg, mov_reg, mvn_reg, mov_imm, add_imm,
  sub_imm, lsl_imm, cmp_imm, ldr_offset, ldr_index, str_index, stp_push, ldp_pop, mov_from_sp, bind,
  branch, branch_if, ret,
}
use apex_engine.Ir.{
  Node, NodePool, NodeKind, ResultKind, bitplane, bitmask, Pointer, node_at, max_nodes, load, const,
  add, sub, gt, lt, eq, and,
}
use apex_engine.Circuit.{emit_gt_64}
use apex_engine.Jit.Emit.{emit_mov_imm64}
use apex_engine.Jit.Scalar.{byte_offset}

-- `const_bit_planes[operand]`, null where the node has no entry.
unfoldable pub planes_of : ℕ → List (ℕ × ℕ) → ℕ
planes_of i [] = 0
planes_of i ((j, address) ∷ m) = if j == i then address else planes_of i m

-- `slot_id * 512` as an immediate
unfoldable pub slot_offset : ℤ → ℕ
slot_offset (pos n) = 512 * n
slot_offset (negsuc n) = (two64 - 512 * suc n % two64) % two64

unfoldable pub is_slot : ℤ → Bool
is_slot (pos n) = true
is_slot (negsuc n) = false

unfoldable pub is_bitplane : ResultKind → Bool
is_bitplane bitplane = true
is_bitplane bitmask = false

-- The slot of a node whose planes are in the scratchpad.
pub slot_code : (out : ℕ) → Node → List Instr
slot_code out n =
    if is_bitplane n.result_kind && is_slot n.slot_id
    then lsl_imm 14 15 3 ∷ add_imm 14 14 (slot_offset n.slot_id) ∷ ldr_index out 20 14 ∷ []
    else []

module _ (constants : List (ℕ × ℕ)) where
  -- `get_operand_at_bit` and `get_bit`, which are the same, at a node of the kind.
  pub bit_code : (out : ℕ) → NodeKind → (j : ℕ) → Node → List Instr
  bit_code out load j n =
      ldr_offset 4 19 (byte_offset n.field_idx) ∷ lsl_imm 14 15 3 ∷ ldr_index out 4 14 ∷ []
  bit_code out const j n =
      emit_mov_imm64 4 (planes_of j constants) ++ lsl_imm 14 15 3 ∷ ldr_index out 4 14 ∷ []
  bit_code out kind j n = slot_code out n

  pub get_bit : (out : ℕ) → NodePool → Pointer → List Instr
  get_bit out p none = []
  get_bit out p (some j) = bit_code out (node_at p j).kind j (node_at p j)

-- `carry_regs[carry_reg]`
unfoldable pub carry_register : ℤ → ℕ
carry_register (pos k) = 21 + k
carry_register (negsuc k) = 0

unfoldable pub full_adder : (carry : ℕ) → List Instr
full_adder carry =
    eor_reg 6 2 3 ∷ eor_reg 5 6 carry ∷ and_reg 7 2 3 ∷ and_reg 14 6 carry ∷ orr_reg carry 7 14 ∷ []

unfoldable pub full_subtractor : (carry : ℕ) → List Instr
full_subtractor carry =
    mvn_reg 6 3
    ∷ eor_reg 7 2 6
    ∷ eor_reg 5 7 carry
    ∷ and_reg 14 2 6
    ∷ and_reg 6 carry 7
    ∷ orr_reg carry 14 6
    ∷ []

pub store_slot : ℤ → List Instr
store_slot slot_id = lsl_imm 14 15 3 ∷ add_imm 14 14 (slot_offset slot_id) ∷ str_index 5 20 14 ∷ []

unfoldable pub is_carried : NodeKind → Bool
is_carried add = true
is_carried sub = true
is_carried kind = false

module _ (constants : List (ℕ × ℕ)) (p : NodePool) where
  -- The body of the loop over `arithmetic_nodes`, behind the operands.
  pub arithmetic_switch : NodeKind → Node → List Instr
  arithmetic_switch add n = full_adder (carry_register n.carry_reg) ++ store_slot n.slot_id
  arithmetic_switch sub n = full_subtractor (carry_register n.carry_reg) ++ store_slot n.slot_id
  arithmetic_switch kind n = []

  pub arithmetic_code : ℕ → List Instr
  arithmetic_code i =
      let n = node_at p i in
      if is_carried n.kind
      then get_bit constants 2 p n.left
        ++ (get_bit constants 3 p n.right ++ arithmetic_switch n.kind n)
      else []

  pub arithmetics_code : List ℕ → List Instr
  arithmetics_code [] = []
  arithmetics_code (i ∷ nodes) = arithmetic_code i ++ arithmetics_code nodes

module _ (p : NodePool) where
  -- `carry_regs` before the loop, for one node.
  pub carry_start : NodeKind → ℤ → List Instr
  carry_start kind (negsuc k) = []
  carry_start add (pos k) = mov_imm (21 + k) 0 ∷ []
  carry_start sub (pos k) = mov_imm (21 + k) 1 ∷ []
  carry_start kind (pos k) = []

  pub carries_start : List ℕ → List Instr
  carries_start [] = []
  carries_start (i ∷ nodes) =
      carry_start (node_at p i).kind (node_at p i).carry_reg ++ carries_start nodes

-- `collect_comparisons`; the depth takes fuel.
unfoldable pub is_comparison : NodeKind → Bool
is_comparison gt = true
is_comparison lt = true
is_comparison eq = true
is_comparison kind = false

unfoldable pub is_and : NodeKind → Bool
is_and and = true
is_and kind = false

unfoldable pub collect_comparisons : (fuel : ℕ) → NodePool → Pointer → List ℕ
collect_comparisons fuel p none = []
collect_comparisons zero p (some i) = []
collect_comparisons (suc fuel) p (some i) =
    let n = node_at p i in
    let both = collect_comparisons fuel p n.left ++ collect_comparisons fuel p n.right in
    if is_comparison n.kind then i ∷ [] else (if is_and n.kind then both else [])

-- The first masks of comparison number `k`, and of those behind it, as far as there are registers.
pub masks_start : (k : ℕ) → List ℕ → List Instr
masks_start k [] = []
masks_start k (i ∷ comparisons) =
    let rest = masks_start (k + 1) comparisons in
    if ltb k 3 then mov_imm (8 + 2 * k) 0 ∷ mvn_reg (9 + 2 * k) 31 ∷ rest else []

module _ (constants : List (ℕ × ℕ)) (p : NodePool) where
  -- One comparison at the bit; nothing is emitted for `EQ`.
  pub comparison_switch : NodeKind → (k : ℕ) → Node → List Instr
  comparison_switch lt k n =
      get_bit constants 2 p n.left
      ++ (get_bit constants 3 p n.right ++ emit_gt_64 3 2 (8 + 2 * k) (9 + 2 * k))
  comparison_switch gt k n =
      get_bit constants 2 p n.left
      ++ (get_bit constants 3 p n.right ++ emit_gt_64 2 3 (8 + 2 * k) (9 + 2 * k))
  comparison_switch kind k n = []

  pub comparisons_code : (k : ℕ) → List ℕ → List Instr
  comparisons_code k [] = []
  comparisons_code k (i ∷ comparisons) =
      let rest = comparisons_code (k + 1) comparisons in
      if ltb k 3 then comparison_switch (node_at p i).kind k (node_at p i) ++ rest else []

-- The masks from number `k` on, and-ed to the result.
pub fold_masks : (k : ℕ) → List ℕ → List Instr
fold_masks k [] = []
fold_masks k (i ∷ comparisons) =
    let rest = fold_masks (k + 1) comparisons in
    if ltb k 3 then and_reg 0 0 (8 + 2 * k) ∷ rest else []

pub result_code : List ℕ → List Instr
result_code [] = mov_imm 0 ones64 ∷ []
result_code (i ∷ comparisons) = mov_reg 0 8 ∷ fold_masks 1 comparisons

unfoldable pub save_registers : List Instr
save_registers =
    stp_push 29 30
    ∷ mov_from_sp 29
    ∷ stp_push 19 20
    ∷ stp_push 21 22
    ∷ stp_push 23 24
    ∷ stp_push 25 26
    ∷ stp_push 27 28
    ∷ mov_reg 19 0
    ∷ mov_reg 20 1
    ∷ []

pub restore_registers : List Instr
restore_registers =
    ldp_pop 27 28
    ∷ ldp_pop 25 26
    ∷ ldp_pop 23 24
    ∷ ldp_pop 21 22
    ∷ ldp_pop 19 20
    ∷ ldp_pop 29 30
    ∷ []

-- Labels 0 and 1 are `loop_start` and `loop_end`, 2 and 3 those of the second loop.
pub expression_code :
    (constants : List (ℕ × ℕ))
    → NodePool
    → (arithmetic_nodes comparison_nodes : List ℕ) → List Instr
expression_code constants p arithmetic_nodes comparison_nodes =
    save_registers
    ++ (carries_start p arithmetic_nodes
        ++ mov_imm 15 0
          ∷ bind 0
          ∷ cmp_imm 15 64
          ∷ branch_if hs 1
          ∷ (arithmetics_code constants p arithmetic_nodes
              ++ add_imm 15 15 1
                ∷ branch 0
                ∷ bind 1
                ∷ (masks_start 0 comparison_nodes
                    ++ mov_imm 15 63
                      ∷ bind 2
                      ∷ cmp_imm 15 0
                      ∷ branch_if lt_signed 3
                      ∷ (comparisons_code constants p 0 comparison_nodes
                          ++ sub_imm 15 15 1
                            ∷ branch 2
                            ∷ bind 3
                            ∷ (result_code comparison_nodes
                                ++ (restore_registers ++ ret 30 ∷ []))))))
