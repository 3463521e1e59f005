-- ===== src/Engine/Expression.antt =====
-- src/api/engine.cpp: `ApexEngine::set_expression`. The node pool and the pool of constants, which
-- belong to the thread, are passed along. `none` is a recursion that does not end.
use apex_engine.Common.{
  ℕ, zero, suc, ℤ, pos, negsuc, Bool, true, false, List, [], ◌∷◌, Option, none, some, Name, assign,
  set, replicate, ltb, if◌then◌else◌, ◌>>=◌,
}
use apex_engine.Arm64.{JitRuntime, ExprKernelFunc}
use apex_engine.Ir.{Node, NodePool, NodeKind, Pointer, node_at, max_nodes, load, select}
use apex_engine.Registry.{FieldDescriptor, SchemaRegistry, get_field}
use apex_engine.Jit.Emit.{c_string}
use apex_engine.Jit.ConstPool.{ConstPool}
use apex_engine.Jit.Scalar.{compile_scalar_expression}
use apex_engine.Jit.Expression.Compile.{compile_expression}
use apex_engine.Engine.{ApexEngine, ExecutionMode, ExprCompiledLogic, bit_sliced, scalar}

abbrev pub Fields : Type 0
Fields = List (Option FieldDescriptor)

unfoldable pub is_load : NodeKind → Bool
is_load load = true
is_load kind = false

unfoldable pub is_select : NodeKind → Bool
is_select select = true
is_select kind = false

-- `fields[idx] = field`, for an index from 0 to 7 and a field that is registered.
unfoldable pub place_field : ℤ → Option FieldDescriptor → Fields → Fields
place_field (negsuc n) field fields = fields
place_field (pos k) none fields = fields
place_field (pos k) (some d) fields = if ltb k 8 then set fields k (some d) else fields

module _ (registry : SchemaRegistry) (schema : Name) (p : NodePool) where
  -- The body of `collect_fields` in front of the recursion.
  unfoldable pub collect_load : Node → Fields → Fields
  collect_load n fields =
      if is_load n.kind
      then place_field n.field_idx (get_field schema (c_string n.field_name) registry) fields
      else fields

  unfoldable pub collect_fields : (fuel : ℕ) → Pointer → Fields → Option Fields
  collect_fields fuel none fields = some fields
  collect_fields zero (some i) fields = none
  collect_fields (suc fuel) (some i) fields = do
    let n = node_at p i
    left ← collect_fields fuel n.left (collect_load n fields)
    both ← collect_fields fuel n.right left
    if is_select n.kind then collect_fields fuel n.cond both else some both

-- `fields.resize(max_idx)`: the nulls at the end go.
unfoldable pub trim : Fields → Fields
trim [] = []
trim (some d ∷ fields) = some d ∷ trim fields
trim (none ∷ fields) = elim (trim fields) [ [] ↦ [] | f ∷ rest ↦ none ∷ f ∷ rest ]

pub record Compiled : Type 0 where
  pub kernel : Option ExprKernelFunc
  pub pool : NodePool
  pub constants : ConstPool

-- The compiler that the mode names.
unfoldable pub compile_mode :
    JitRuntime → (ℕ → ℕ) → ExecutionMode → Pointer → NodePool → ConstPool → Option Compiled
compile_mode rt fresh bit_sliced root p pools = do
  (kernel, q, pools') ← compile_expression rt fresh root p pools
  some (record { kernel = kernel; pool = q; constants = pools' })
compile_mode rt fresh scalar root p pools = do
  (kernel, q) ← compile_scalar_expression rt root p
  some (record { kernel = kernel; pool = q; constants = pools })

-- Behind the compiler: a null kernel changes nothing.
unfoldable pub store_logic :
    Name
    → Pointer
    → ExecutionMode
    → ApexEngine
    → Compiled
    → Option (ApexEngine × NodePool × ConstPool)
store_logic schema root mode e done = elim (done.kernel) [
  | none ↦ some (e, done.pool, done.constants)
  | some fn ↦ do
    fields ← collect_fields e.registry schema done.pool max_nodes root (replicate 8 none)
    let logic : ExprCompiledLogic = record { kernel = some fn; fields = trim fields; mode = mode }
    some (record e { expr_logic = assign schema logic e.expr_logic }, done.pool, done.constants)
]

unfoldable pub set_expression :
    JitRuntime
    → (fresh : ℕ → ℕ) → Name
    → Pointer
    → ExecutionMode
    → NodePool
    → ConstPool
    → ApexEngine
    → Option (ApexEngine × NodePool × ConstPool)
set_expression rt fresh schema root mode p pools e = do
  done ← compile_mode rt fresh mode root p pools
  store_logic schema root mode e done
