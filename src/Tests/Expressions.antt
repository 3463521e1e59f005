-- ===== src/Tests/Expressions.antt =====
-- The compiler of expressions and its pools at concrete inputs.
use apex_engine.Common.{
  ℕ, ◌+◌, ◌*◌, ◌<◌, ◌≡◌, refl, arith, ℤ, pos, negsuc, [], List, Option, some, none, get_or,
  if◌then◌else◌, Name, ltb, false, find, name_eq, ◌⊎◌,
}
use apex_engine.Word.{test_bit, add64}
use apex_engine.Arm64.{Instr, ExprKernelFunc}
use apex_engine.Ir.{NodePool, new_pool, max_nodes, alloc, build, const_node, not_node}
use apex_engine.Ir.Acyclic.{starts, steps, constants, unary, by_not, reachable-IsAcyclic}
use apex_engine.Jit.Analyzer.{Analysis, analyze}
use apex_engine.Jit.Analyzer.Total.{new_analysis}
use apex_engine.Jit.Emit.{to_u64}
use apex_engine.Jit.ConstPool.{ConstPool, find_planes, get_or_create}
use apex_engine.Jit.ConstPool.Planes.{IsFilled, no_planes, get_or_create-planes}
use apex_engine.Jit.Expression.Compile.{compile_expression}
use apex_engine.Jit.Expression.Totality.{fits, compile_expression-returns}
use apex_engine.Jit.Scalar.Value.{Value, flag}
use apex_engine.Arm64.{Cpu, put}
use apex_engine.Jit.Expression.{full_adder, full_subtractor}
use apex_engine.Jit.Expression.Adder.{row, full_adder-adds, full_subtractor-subtracts}
use apex_engine.Api.{apex_create_universal_test_logic, apex_create_simple_logic}
use apex_engine.Api.Logic.{universal_logic-Value, simple_logic-Value, field_name}
use apex_engine.Arm64.Flow.{execs}
use apex_engine.Jit.Emit.{emit_mov_imm64}
use apex_engine.Jit.Emit.Constants.{execs-emit_mov_imm64}
use apex_engine.Ir.Acyclic.{IsAcyclic}
use apex_engine.Engine.{ApexEngine, new_engine, bit_sliced}
use apex_engine.Engine.Expression.{Fields, set_expression}
use apex_engine.Engine.Logic.{set_expression-returns}
use apex_engine.Tests.Machine.{interpreter, idle}
use apex_engine.Tests.Engine.{buffers, trade}

-- The planes of -1 are made in an empty pool.
get_or_create-planes_example :
    let (planes, after) = get_or_create (λ n. 512 * n) (negsuc 0) [] in
    IsFilled after
    × ((k row : ℕ)
        → k < 64
        → row < 64
        → test_bit (get_or planes.bit_planes k 0) row ≡ test_bit (to_u64 (negsuc 0)) k)
    × ((later : ℕ → ℕ) → get_or_create later (negsuc 0) after ≡ (planes, after))
    × ((other : ℤ) (old : _) → find_planes other [] ≡ some old → find_planes other after ≡ some old)
get_or_create-planes_example = get_or_create-planes (λ n. 512 * n) (negsuc 0) [] no_planes

abbrev constant : NodePool
constant = (const_node (pos 5) new_pool).1

abbrev negated : NodePool
negated = (not_node (some 0) constant).1

-- The negation of a constant is compiled.
compile_expression-returns_example :
    (a : Analysis) × (code : List Instr) × (kernel : Option ExprKernelFunc) × (q : NodePool)
    × (after : ConstPool) × (analyze max_nodes (some 1) (new_analysis negated) ≡ some a)
    × (compile_expression interpreter (λ n. 512 * n) (some 1) negated [] ≡ some (kernel, q, after))
    × (kernel ≡ (if fits a then interpreter.add_expr code else none))
unfolding const_node not_node build alloc
compile_expression-returns_example =
    compile_expression-returns interpreter (λ n. 512 * n) negated 1 []
      (reachable-IsAcyclic
        (steps (steps starts (constants (pos 5))) (unary not_node (some 0) by_not (omega arith))))
      (omega arith)

universal_logic-Value_example :
    (root : ℕ) × (q : NodePool) × (apex_create_universal_test_logic new_pool ≡ some (some root, q))
    × ((field : Name → ℕ)
        → Value q field root (
            flag
              (ltb (field (field_name 2)) (add64 (field (field_name 0)) (field (field_name 1))))))
universal_logic-Value_example = universal_logic-Value new_pool (omega arith) refl

simple_logic-Value_example :
    (root : ℕ) × (q : NodePool) × (apex_create_simple_logic new_pool ≡ some (some root, q))
    × ((field : Name → ℕ) → Value q field root (flag (ltb 10 (field (field_name 0)))))
simple_logic-Value_example = simple_logic-Value new_pool (omega arith) refl

-- An engine gets the negation as the logic of a schema.
set_expression-returns_example :
    (e' : ApexEngine) × (q : NodePool) × (after : ConstPool) × (set_expression interpreter
        (λ n. 512 * n)
        trade
        (some 1)
        bit_sliced
        negated
        []
        (new_engine buffers)
      ≡ some (e', q, after))
    × IsAcyclic q
    × (record e' { expr_logic = [] } ≡ new_engine buffers)
    × ((other : Name) → name_eq trade other ≡ false → find other e'.expr_logic ≡ none)
    × ((e' ≡ new_engine buffers)
        ⊎ ((fn : ExprKernelFunc) × (fields : Fields) × (find trade e'.expr_logic
              ≡ some (record { kernel = some fn; fields = fields; mode = bit_sliced }))))
unfolding const_node not_node build alloc find
set_expression-returns_example =
    set_expression-returns interpreter (λ n. 512 * n) trade 1 bit_sliced negated []
      (new_engine buffers)
      (reachable-IsAcyclic
        (steps (steps starts (constants (pos 5))) (unary not_node (some 0) by_not (omega arith))))
      (omega arith)

-- A movz and three movk.
execs-emit_mov_imm64_example :
    let d = execs (emit_mov_imm64 5 0x1234_5678_9abc_def0) idle in
    (d.reg 5 ≡ 0x1234_5678_9abc_def0) × (d.mem ≡ idle.mem) × (d.sp ≡ 65536)
execs-emit_mov_imm64_example =
    execs-emit_mov_imm64 5 0x1234_5678_9abc_def0 (λ e. absurd (omega (arith, e))) (omega arith) idle

-- Row 3 of the planes 8 and 12 with the carry 8: 1 + 1 + 1 is 1 and a carry.
abbrev adding : Cpu
adding = record idle { reg = put (put (put idle.reg 2 8) 3 12) 22 8 }

full_adder-adds_example :
    let d = execs (full_adder 22) adding in row (d.reg 5) 3 + 2 * row (d.reg 22) 3 ≡ 3
unfolding test_bit
full_adder-adds_example = full_adder-adds 1 adding 3 (omega arith)

full_subtractor-subtracts_example :
    let d = execs (full_subtractor 22) adding in row (d.reg 5) 3 + 2 * row (d.reg 22) 3 ≡ 2
unfolding test_bit
full_subtractor-subtracts_example = full_subtractor-subtracts 1 adding 3 (omega arith) (omega arith)
