-- ===== src/Jit/Scalar.antt =====
-- `JitCompiler::compile_scalar_expression` of src/jit/compiler.cpp: the kernel that evaluates an
-- expression one row after another. x0 holds the field arrays, x1 the scratchpad, x2 and x3 the
-- operands, x4 an array's address, x5 the result, x19 the mask and x20 the row.
pub mod Value
pub mod Nodes
pub mod Row
pub mod Steps
pub mod Shape
pub mod Whole
pub mod Loop
pub mod Correct
pub mod Listed
pub mod Kernel
use apex_engine.Common.{
  ℕ, zero, suc, ◌+◌, ◌-◌, ◌*◌, ◌%◌, ℤ, pos, negsuc, List, [], ◌∷◌, ◌++◌, Option, none, some, length,
  ◌==◌, if◌then◌else◌, ◌>>=◌,
}
use apex_engine.Word.{two64}
use apex_engine.Arm64.{
  Instr, Cond, hs, lo, hi, eq, and_reg, orr_reg, add_reg, sub_reg, lsl_reg, mov_reg, mov_imm,
  add_imm, cmp_reg, cmp_imm, cset, ldr_offset, ldr_scaled, str_offset, stp_push, ldp_pop,
  mov_from_sp, bind, branch, branch_if, ret, ExprKernelFunc, JitRuntime,
}
use apex_engine.Ir.{
  Node, NodePool, NodeKind, Pointer, node_at, max_nodes, load, const, add, sub, gt, lt, and, or,
  not_, select, lsl, lsr,
}
use apex_engine.Ir
use apex_engine.Jit.Analyzer.{Analysis, analyze}
use apex_engine.Jit.Analyzer.Total.{new_analysis}
use apex_engine.Jit.Emit.{to_u64, emit_mov_imm64, assign_fields}

-- `field_idx * 8` as the offset of a load
unfoldable pub byte_offset : ℤ → ℕ
byte_offset (pos n) = 8 * n
byte_offset (negsuc n) = (two64 - 8 * suc n % two64) % two64

-- The search for `operand` in the nodes evaluated before, the first of which is number `j`; 0 where
-- it is not there.
unfoldable pub find_operand : ℕ → (j : ℕ) → List ℕ → ℕ
find_operand operand j [] = 0
find_operand operand j (n ∷ before) =
    if n == operand then j else find_operand operand (j + 1) before

module _ (before : List ℕ) (out : ℕ) where
  -- `get_operand` at a node of the kind.
  pub operand_code : NodeKind → ℕ → Node → List Instr
  operand_code load j n = ldr_offset 4 0 (byte_offset n.field_idx) ∷ ldr_scaled out 4 20 ∷ []
  operand_code const j n = emit_mov_imm64 out (to_u64 n.const_value)
  operand_code add j n = ldr_offset out 1 (find_operand j 0 before * 8) ∷ []
  operand_code sub j n = ldr_offset out 1 (find_operand j 0 before * 8) ∷ []
  operand_code gt j n = ldr_offset out 1 (find_operand j 0 before * 8) ∷ []
  operand_code lt j n = ldr_offset out 1 (find_operand j 0 before * 8) ∷ []
  operand_code Ir.eq j n = ldr_offset out 1 (find_operand j 0 before * 8) ∷ []
  operand_code and j n = ldr_offset out 1 (find_operand j 0 before * 8) ∷ []
  operand_code or j n = ldr_offset out 1 (find_operand j 0 before * 8) ∷ []
  operand_code not_ j n = ldr_offset out 1 (find_operand j 0 before * 8) ∷ []
  operand_code select j n = ldr_offset out 1 (find_operand j 0 before * 8) ∷ []
  operand_code lsl j n = ldr_offset out 1 (find_operand j 0 before * 8) ∷ []
  operand_code lsr j n = ldr_offset out 1 (find_operand j 0 before * 8) ∷ []

  pub get_operand : NodePool → Pointer → List Instr
  get_operand p none = []
  get_operand p (some j) = operand_code (node_at p j).kind j (node_at p j)

-- The `switch` on the kind of node `i`.
pub node_switch : NodePool → List ℕ → ℕ → NodeKind → List Instr
node_switch p before i load = get_operand before 5 p (some i)
node_switch p before i const = get_operand before 5 p (some i)
node_switch p before i add = add_reg 5 2 3 ∷ []
node_switch p before i sub = sub_reg 5 2 3 ∷ []
node_switch p before i gt = cmp_reg 2 3 ∷ cset 5 hi ∷ []
node_switch p before i lt = cmp_reg 2 3 ∷ cset 5 lo ∷ []
node_switch p before i Ir.eq = cmp_reg 2 3 ∷ cset 5 eq ∷ []
node_switch p before i and = and_reg 5 2 3 ∷ []
node_switch p before i or = orr_reg 5 2 3 ∷ []
node_switch p before i not_ = []
node_switch p before i select = []
node_switch p before i lsl = []
node_switch p before i lsr = []

-- The body of the loop over `all_nodes`, behind the nodes `before`.
pub node_code : NodePool → List ℕ → ℕ → List Instr
node_code p before i =
    get_operand before 2 p (node_at p i).left
    ++ (get_operand before 3 p (node_at p i).right
        ++ (node_switch p before i (node_at p i).kind ++ str_offset 5 1 (length before * 8) ∷ []))

pub nodes_code : NodePool → (before rest : List ℕ) → List Instr
nodes_code p before [] = []
nodes_code p before (i ∷ rest) = node_code p before i ++ nodes_code p (before ++ i ∷ []) rest

-- Label 0 is `loop_start`, label 1 `loop_end`.
unfoldable pub prologue : List Instr
prologue = stp_push 29 30 ∷ mov_from_sp 29 ∷ stp_push 19 20 ∷ mov_imm 19 0 ∷ mov_imm 20 0 ∷ []

pub row_end : List Instr
row_end = lsl_reg 5 5 20 ∷ orr_reg 19 19 5 ∷ add_imm 20 20 1 ∷ []

pub epilogue : List Instr
epilogue = mov_reg 0 19 ∷ ldp_pop 19 20 ∷ ldp_pop 29 30 ∷ []

pub scalar_code : NodePool → (all_nodes : List ℕ) → List Instr
scalar_code p all_nodes =
    prologue
    ++ bind 0
      ∷ cmp_imm 20 64
      ∷ branch_if hs 1
      ∷ (nodes_code p [] all_nodes ++ (row_end ++ branch 0 ∷ bind 1 ∷ (epilogue ++ ret 30 ∷ [])))

-- The pool is changed by the analysis; `none` is an analysis that does not end, and the kernel is
-- `none` for the function's `nullptr`.
unfoldable pub compile_scalar_expression :
    JitRuntime → Pointer → NodePool → Option (Option ExprKernelFunc × NodePool)
compile_scalar_expression rt none p = some (none, p)
compile_scalar_expression rt (some root) p = do
  analyzer ← analyze max_nodes (some root) (new_analysis p)
  let q = assign_fields analyzer.load_nodes [] analyzer.pool
  some (rt.add_expr (scalar_code q analyzer.all_nodes), q)
