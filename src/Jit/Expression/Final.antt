-- ===== src/Jit/Expression/Final.antt =====
-- What `compile_expression` has at hand when it emits code: the pool with all numbers, and the planes
-- of the constants.
use apex_engine.Common.{ℕ, ◌≤◌, ◌≡◌, refl, ap, arith, ℤ, true, List, [], some, length, leb}
use apex_engine.Word.Count.{count_below}
use apex_engine.Arm64.{Instr, JitRuntime}
use apex_engine.Ir.{Node, NodePool, NodeKind, ResultKind, Pointer, node_at, max_nodes}
use apex_engine.Ir.Acyclic.{IsAcyclic}
use apex_engine.Ir.Links.{SamePart, SameLinks, SamePart-trans, SameLinks-IsAcyclic}
use apex_engine.Jit.Analyzer.{Analysis}
use apex_engine.Jit.Analyzer.Steps.{SameTree}
use apex_engine.Jit.ConstPool.{ConstPool}
use apex_engine.Jit.Scratchpad.{new_scratchpad}
use apex_engine.Jit.Expression.{collect_comparisons, expression_code}
use apex_engine.Jit.Expression.Compile.{
  number_fields, create_planes, assign_slots, assign_carries, compile_analyzed,
}
use apex_engine.Jit.Expression.Limits.{number_fields_lem, assign_slots_lem, assign_carries_lem}
use apex_engine.Jit.Expression.Totality.{fits}
use apex_engine.Jit.Expression.Writes.{
  number_fields-SamePart, create_planes-SamePart, assign_slots-SamePart, assign_carries-SamePart,
}

-- What no number is part of.
abbrev pub Core : Type 0
Core = Pointer × Pointer × Pointer × NodeKind × List ℕ × ℤ × ResultKind

abbrev pub core_of : Node → Core
core_of n = (n.left, n.right, n.cond, n.kind, n.field_name, n.const_value, n.result_kind)

module _ (fresh : ℕ → ℕ) (a : Analysis) (pools : ConstPool) where
  abbrev pub fields_pool : NodePool
  fields_pool = (number_fields a.load_nodes [] a.pool).1

  abbrev pub created : List (ℕ × ℕ) × NodePool × ConstPool
  created = create_planes fresh a.const_nodes [] fields_pool pools

  abbrev pub slots_pool : NodePool
  slots_pool = (assign_slots a.arithmetic_nodes new_scratchpad created.1).1

  -- The pool that the code is made from.
  abbrev pub final_pool : NodePool
  final_pool = (assign_carries a.arithmetic_nodes 0 slots_pool).1

  abbrev pub final_comparisons : ℕ → List ℕ
  final_comparisons root = collect_comparisons max_nodes final_pool (some root)

  abbrev pub final_code : ℕ → List Instr
  final_code root = expression_code created.0 final_pool a.arithmetic_nodes (final_comparisons root)

  pub created-SamePart : SamePart core_of a.pool created.1
  created-SamePart =
      SamePart-trans (number_fields-SamePart core_of (λ n x. refl) a.load_nodes [] a.pool)
        (create_planes-SamePart core_of (λ n x. refl) fresh a.const_nodes [] fields_pool pools)

  pub slots-SamePart : SamePart core_of a.pool slots_pool
  slots-SamePart =
      SamePart-trans created-SamePart
        (assign_slots-SamePart core_of (λ n x. refl) a.arithmetic_nodes new_scratchpad created.1)

  pub final-SamePart : SamePart core_of a.pool final_pool
  final-SamePart =
      SamePart-trans slots-SamePart
        (assign_carries-SamePart core_of (λ n x. refl) a.arithmetic_nodes 0 slots_pool)

  pub final-SameTree : (j : ℕ) → SameTree (node_at a.pool j) (node_at final_pool j)
  final-SameTree j =
      let e = final-SamePart.parts j in
      (
        ap (λ (t : Core). t.0) e,
        ap (λ (t : Core). t.1) e,
        ap (λ (t : Core). t.2) e,
        ap (λ (t : Core). t.3) e,
        ap (λ (t : Core). t.4) e,
        ap (λ (t : Core). t.5) e,
      )

  pub final-IsAcyclic : IsAcyclic a.pool → IsAcyclic final_pool
  final-IsAcyclic ok =
      let same : SameLinks a.pool final_pool = record {
        parts = λ j. ap (λ (t : Core). (t.0, t.1, t.2)) (final-SamePart.parts j);
        size = final-SamePart.size;
      } in
      SameLinks-IsAcyclic same ok

  -- Where nothing is exceeded, this is what is compiled.
  pub compiled_lem :
      (rt : JitRuntime) (root : ℕ)
      → fits a ≡ true
      → compile_analyzed rt fresh root a pools
        ≡ (rt.add_expr (final_code root), final_pool, created.2)
  unfolding compile_analyzed count_below
  compiled_lem rt root enough =
      let nodes = a.arithmetic_nodes in
      let f = number_fields_lem a.load_nodes [] a.pool (omega arith) in
      let s : (assign_slots nodes new_scratchpad created.1).0 ≡ leb (length nodes) 8 =
        assign_slots_lem nodes new_scratchpad created.1 refl in
      let few : length nodes ≤ 8 = ground (arith, enough) in
      let c = assign_carries_lem nodes 0 slots_pool (omega (arith, few)) in
      let fields : (number_fields a.load_nodes [] a.pool).0 ≡ true = ground (arith, f, enough) in
      let slots : (assign_slots nodes new_scratchpad created.1).0 ≡ true = ground (arith, s, few) in
      rw (compile_analyzed, fields, slots, c) refl

pub fits_nodes : (a : Analysis) → fits a ≡ true → length a.arithmetic_nodes ≤ 8
fits_nodes a enough = ground (arith, enough)
