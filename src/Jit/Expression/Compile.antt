-- ===== src/Jit/Expression/Compile.antt =====
-- `JitCompiler::compile_expression` of src/jit/compiler.cpp: the numbers that it gives to fields,
-- slots and carries, and its early returns.
use apex_engine.Common.{
  ℕ, ◌+◌, ℤ, pos, negsuc, Bool, true, false, List, [], ◌∷◌, Option, none, some, length, set, leb,
  find, Map, if◌then◌else◌, ◌>>=◌,
}
use apex_engine.Arm64.{ExprKernelFunc, JitRuntime}
use apex_engine.Ir.{NodePool, Pointer, node_at, max_nodes}
use apex_engine.Jit.Analyzer.{Analysis, analyze}
use apex_engine.Jit.Analyzer.Total.{new_analysis}
use apex_engine.Jit.Scratchpad.{ScratchpadManager, new_scratchpad, alloc_slot}
use apex_engine.Jit.ConstPool.{ConstPool, get_or_create}
use apex_engine.Jit.Emit.{c_string, number_field, index_of, set_field_idx}
use apex_engine.Jit.Expression.{is_carried, is_slot, collect_comparisons, expression_code}

-- The loop over `load_nodes`; false at a ninth field.
unfoldable pub number_fields : List ℕ → Map ℕ → NodePool → Bool × NodePool
number_fields [] m p = (true, p)
number_fields (i ∷ load_nodes) m p =
    let name = c_string (node_at p i).field_name in
    let m' = number_field name m in
    let rest = number_fields load_nodes m' (set_field_idx i (index_of name m') p) in
    elim (find name m) [ some k ↦ rest | none ↦ if leb 8 (length m) then (false, p) else rest ]

-- The loop over `const_nodes`.
unfoldable pub create_planes :
    (fresh : ℕ → ℕ)
    → List ℕ
    → List (ℕ × ℕ)
    → NodePool
    → ConstPool
    → List (ℕ × ℕ) × NodePool × ConstPool
create_planes fresh [] constants p pools = (constants, p, pools)
create_planes fresh (i ∷ const_nodes) constants p pools =
    let (planes, pools') = get_or_create fresh (node_at p i).const_value pools in
    create_planes fresh const_nodes ((i, planes.address) ∷ constants) (set_field_idx i (negsuc 1) p)
      pools'

unfoldable pub set_slot_id : ℕ → ℤ → NodePool → NodePool
set_slot_id i id p = record p { storage = set p.storage i (record (node_at p i) { slot_id = id }) }

unfoldable pub set_carry_reg : ℕ → ℤ → NodePool → NodePool
set_carry_reg i k p = record p {
  storage = set p.storage i (record (node_at p i) { carry_reg = k });
}

-- The first loop over `arithmetic_nodes`; false where there is no slot.
unfoldable pub assign_slots : List ℕ → ScratchpadManager → NodePool → Bool × NodePool
assign_slots [] used p = (true, p)
assign_slots (i ∷ arithmetic_nodes) used p =
    let (id, used') = alloc_slot used in
    let q = set_slot_id i id p in
    let rest = assign_slots arithmetic_nodes used' q in if is_slot id then rest else (false, q)

-- The second; false at a ninth carry.
unfoldable pub assign_carries : List ℕ → ℕ → NodePool → Bool × NodePool
assign_carries [] k p = (true, p)
assign_carries (i ∷ arithmetic_nodes) k p =
    let next = assign_carries arithmetic_nodes (k + 1) (set_carry_reg i (pos k) p) in
    let skip = assign_carries arithmetic_nodes k p in
    if is_carried (node_at p i).kind then (if leb 8 k then (false, p) else next) else skip

-- The analysis, then the numbers; `none` in the second place is `nullptr`, and the outer `none` an
-- analysis that does not end.
unfoldable pub compile_analyzed :
    JitRuntime
    → (fresh : ℕ → ℕ) → (root : ℕ) → Analysis
    → ConstPool
    → Option ExprKernelFunc × NodePool × ConstPool
compile_analyzed rt fresh root analyzer pools =
    let (few_fields, p1) = number_fields analyzer.load_nodes [] analyzer.pool in
    let (constants, p2, pools') = create_planes fresh analyzer.const_nodes [] p1 pools in
    let (few_slots, p3) = assign_slots analyzer.arithmetic_nodes new_scratchpad p2 in
    let (few_carries, p4) = assign_carries analyzer.arithmetic_nodes 0 p3 in
    let comparisons = collect_comparisons max_nodes p4 (some root) in
    let code = expression_code constants p4 analyzer.arithmetic_nodes comparisons in
    if few_fields
    then (if few_slots
        then (if few_carries then (rt.add_expr code, p4, pools') else (none, p4, pools'))
        else (none, p3, pools'))
    else (none, p1, pools)

unfoldable pub compile_expression :
    JitRuntime
    → (fresh : ℕ → ℕ) → Pointer
    → NodePool
    → ConstPool
    → Option (Option ExprKernelFunc × NodePool × ConstPool)
compile_expression rt fresh none p pools = some (none, p, pools)
compile_expression rt fresh (some root) p pools = do
  analyzer ← analyze max_nodes (some root) (new_analysis p)
  some (compile_analyzed rt fresh root analyzer pools)
