-- ===== src/Engine/Logic.antt =====
-- `ApexEngine::set_expression` returns, and what it leaves alone.
use apex_engine.Common.{
  ℕ, zero, suc, ◌<◌, ◌≡◌, refl, ◌∙◌, arith, false, [], none, some, Name, find, assign, find-assign,
  name_eq, name_eq_refl, ◌⊎◌, Bool-cases, Option-cases, inl, inr, replicate,
}
use apex_engine.Arm64.{JitRuntime, ExprKernelFunc}
use apex_engine.Ir.{NodePool, Pointer, node_at, max_nodes}
use apex_engine.Ir.Acyclic.{IsAcyclic, PointsBelow}
use apex_engine.Ir.Links.{SameLinks-IsAcyclic}
use apex_engine.Registry.{SchemaRegistry}
use apex_engine.Jit.Analyzer.Total.{new_analysis, analyze-Ended, new-IsClosed}
use apex_engine.Jit.Analyzer.Steps.{Extends-IsAcyclic}
use apex_engine.Jit.ConstPool.{ConstPool}
use apex_engine.Jit.Emit.{assign_fields}
use apex_engine.Jit.Scalar.{compile_scalar_expression, scalar_code}
use apex_engine.Jit.Expression.Compile.{compile_analyzed, compile_expression}
use apex_engine.Jit.Expression.Comparisons.{PointsBelow-less}
use apex_engine.Jit.Expression.Writes.{compile_analyzed-SameLinks, assign_fields-SameLinks}
use apex_engine.Engine.{ApexEngine, ExecutionMode, ExprCompiledLogic, bit_sliced, scalar}
use apex_engine.Engine.Expression.{
  Fields, Compiled, collect_load, collect_fields, compile_mode, store_logic, set_expression,
  is_select, trim,
}

module _ (registry : SchemaRegistry) (schema : Name) (p : NodePool) (ok : IsAcyclic p) where
  collect_fields-some :
      (fuel : ℕ) (root : Pointer) (fields : Fields)
      → PointsBelow fuel root
      → (found : Fields) × (collect_fields registry schema p fuel root fields ≡ some found)
  unfolding collect_fields
  collect_fields-some fuel none fields below = (fields, refl)
  collect_fields-some zero (some i) fields below = absurd (omega (arith, below))
  collect_fields-some (suc fuel) (some i) fields below =
      let n = node_at p i in
      let links = ok.links i in
      let near =
        λ (q : Pointer) (b : PointsBelow i q). PointsBelow-less fuel i q (omega (arith, below)) b in
      let (l, el) =
        collect_fields-some fuel n.left (collect_load registry schema p n fields)
          (near n.left links.left) in
      let (r, er) = collect_fields-some fuel n.right l (near n.right links.right) in
      let (c, ec) = collect_fields-some fuel n.cond r (near n.cond links.cond) in
      elim (Bool-cases (is_select n.kind)) [
        | inl selects ↦ (c, rw (collect_fields, el, er, selects) ec)
        | inr other ↦ (r, rw (collect_fields, el, er, other) refl)
      ]

compile_mode-returns :
    (rt : JitRuntime) (fresh : ℕ → ℕ) (mode : ExecutionMode) (root : ℕ) (p : NodePool)
    (pools : ConstPool)
    → IsAcyclic p
    → root < max_nodes
    → (done : Compiled) × (compile_mode rt fresh mode (some root) p pools ≡ some done)
      × IsAcyclic done.pool
unfolding compile_mode compile_expression compile_scalar_expression
compile_mode-returns rt fresh bit_sliced root p pools ok h =
    let ended =
      analyze-Ended (λ a. Unit {0}) (λ i a r s n l q inv. tt) max_nodes (some root) (new_analysis p)
        (omega arith) h ok (new-IsClosed p) tt in
    let a = ended.result in
    let (kernel, q, pools') = compile_analyzed rt fresh root a pools in
    (
      record { kernel = kernel; pool = q; constants = pools' },
      rw (compile_mode, compile_expression, ended.ends) refl,
      SameLinks-IsAcyclic (compile_analyzed-SameLinks rt fresh root a pools)
          (Extends-IsAcyclic ended.extends ok),
    )
compile_mode-returns rt fresh scalar root p pools ok h =
    let ended =
      analyze-Ended (λ a. Unit {0}) (λ i a r s n l q inv. tt) max_nodes (some root) (new_analysis p)
        (omega arith) h ok (new-IsClosed p) tt in
    let a = ended.result in
    let q = assign_fields a.load_nodes [] a.pool in
    (
      record { kernel = rt.add_expr (scalar_code q a.all_nodes); pool = q; constants = pools },
      rw (compile_mode, compile_scalar_expression, ended.ends) refl,
      SameLinks-IsAcyclic (assign_fields-SameLinks a.load_nodes [] a.pool)
          (Extends-IsAcyclic ended.extends ok),
    )

store_logic_null :
    (schema : Name) (root : Pointer) (mode : ExecutionMode) (e : ApexEngine) (done : Compiled)
    → done.kernel ≡ none
    → store_logic schema root mode e done ≡ some (e, done.pool, done.constants)
unfolding store_logic
store_logic_null schema root mode e done null = rw (store_logic, null) refl

store_logic_kernel :
    (schema : Name) (root : Pointer) (mode : ExecutionMode) (e : ApexEngine) (done : Compiled)
    (fn : ExprKernelFunc) (fields : Fields)
    → done.kernel ≡ some fn
    → collect_fields e.registry schema done.pool max_nodes root (replicate 8 none) ≡ some fields
    → let logic : ExprCompiledLogic = record {
      kernel = some fn;
      fields = trim fields;
      mode = mode;
    } in
      store_logic schema root mode e done
      ≡ some (record e { expr_logic = assign schema logic e.expr_logic }, done.pool, done.constants)
unfolding store_logic
store_logic_kernel schema root mode e done fn fields given found =
    rw (store_logic, given) (rw found refl)

-- `set_expression`, in either mode and with any root in a pool without cycles, returns, keeps the pool
-- without cycles, and changes of the engine at most the expression logic of the schema it is given:
-- that either stays or has a kernel and the mode.
pub set_expression-returns :
    (rt : JitRuntime) (fresh : ℕ → ℕ) (schema : Name) (root : ℕ) (mode : ExecutionMode)
    (p : NodePool) (pools : ConstPool) (e : ApexEngine)
    → IsAcyclic p
    → root < max_nodes
    → (e' : ApexEngine) × (q : NodePool) × (after : ConstPool) × (set_expression rt fresh schema
          (some root)
          mode
          p
          pools
          e
        ≡ some (e', q, after))
      × IsAcyclic q
      × (record e' { expr_logic = e.expr_logic } ≡ e)
      × ((other : Name)
          → name_eq schema other ≡ false
          → find other e'.expr_logic ≡ find other e.expr_logic)
      × ((e' ≡ e)
          ⊎ ((fn : ExprKernelFunc) × (fields : Fields) × (find schema e'.expr_logic
                ≡ some (record { kernel = some fn; fields = fields; mode = mode }))))
unfolding set_expression
set_expression-returns rt fresh schema root mode p pools e ok h =
    let (done, compiled, ok') = compile_mode-returns rt fresh mode root p pools ok h in
    elim (Option-cases done.kernel) [
      | inl null ↦ (
        e,
        done.pool,
        done.constants,
        rw (set_expression, compiled) (store_logic_null schema (some root) mode e done null),
        ok',
        refl,
        (λ other apart. refl),
        inl refl,
      )
      | inr (fn, given) ↦
          let (fields, found) =
            collect_fields-some e.registry schema done.pool ok' max_nodes (some root)
              (replicate 8 none) h in
          let logic : ExprCompiledLogic = record {
            kernel = some fn;
            fields = trim fields;
            mode = mode;
          } in
          (
            record e { expr_logic = assign schema logic e.expr_logic },
            done.pool,
            done.constants,
            rw (set_expression, compiled)
                (store_logic_kernel schema (some root) mode e done fn fields given found),
            ok',
            refl,
            (λ other apart. find-assign other schema logic e.expr_logic ∙ rw apart refl),
            inr (
              fn,
              trim fields,
              find-assign schema schema logic e.expr_logic ∙ rw (name_eq_refl schema) refl,
            ),
          )
    ]
