-- ===== src/Jit/Expression/Totality.antt =====
-- `compile_expression` returns, and when it gives a kernel.
use apex_engine.Common.{
  ℕ, ◌<◌, ◌≡◌, refl, ◌∙◌, arith, Bool, true, false, List, [], Option, none, some, length, leb, ◌&&◌,
  if◌then◌else◌, ap₂,
}
use apex_engine.Word.Count.{count_below}
use apex_engine.Arm64.{Instr, ExprKernelFunc, JitRuntime}
use apex_engine.Ir.{NodePool, max_nodes}
use apex_engine.Ir.Acyclic.{IsAcyclic}
use apex_engine.Jit.Analyzer.{Analysis, analyze}
use apex_engine.Jit.Analyzer.Total.{new_analysis, analyze-Ended, new-IsClosed}
use apex_engine.Jit.ConstPool.{ConstPool}
use apex_engine.Jit.Scratchpad.{new_scratchpad}
use apex_engine.Jit.Expression.{collect_comparisons, expression_code}
use apex_engine.Jit.Expression.Compile.{
  number_fields, create_planes, assign_slots, assign_carries, compile_analyzed, compile_expression,
}
use apex_engine.Jit.Expression.Limits.{
  fields_of, number_fields_lem, assign_slots_lem, assign_carries_lem,
}

-- Few enough fields, and few enough nodes that need a slot.
abbrev pub fits : Analysis → Bool
fits a = leb (length (fields_of a.load_nodes a.pool [])) 8 && leb (length a.arithmetic_nodes) 8

-- What a compilation gives.
abbrev Given : Type 0
Given = Option ExprKernelFunc × NodePool × ConstPool

-- The early returns, behind each other; the last never happens where there are slots.
picked :
    (fields slots carries : Bool) (r : Option ExprKernelFunc) (p1 p3 p4 : NodePool)
    (c c' : ConstPool)
    → (slots ≡ true → carries ≡ true)
    → let given : Given =
        if fields
        then (if slots then (if carries then (r, p4, c') else (none, p4, c')) else (none, p3, c'))
        else (none, p1, c) in
      given.0 ≡ (if fields && slots then r else none)
picked true true true r p1 p3 p4 c c' h = refl
picked true true false r p1 p3 p4 c c' h = absurd (cc (h refl))
picked true false carries r p1 p3 p4 c c' h = refl
picked false slots carries r p1 p3 p4 c c' h = refl

compile_analyzed_lem :
    (rt : JitRuntime) (fresh : ℕ → ℕ) (root : ℕ) (a : Analysis) (pools : ConstPool)
    → (code : List Instr) × ((compile_analyzed rt fresh root a pools).0
        ≡ (if fits a then rt.add_expr code else none))
unfolding compile_analyzed count_below
compile_analyzed_lem rt fresh root a pools =
    let nodes = a.arithmetic_nodes in
    let (few_fields, p1) = number_fields a.load_nodes [] a.pool in
    let (constants, p2, pools') = create_planes fresh a.const_nodes [] p1 pools in
    let (few_slots, p3) = assign_slots nodes new_scratchpad p2 in
    let (few_carries, p4) = assign_carries nodes 0 p3 in
    let code = expression_code constants p4 nodes (collect_comparisons max_nodes p4 (some root)) in
    let f = number_fields_lem a.load_nodes [] a.pool (omega arith) in
    let s : few_slots ≡ leb (length nodes) 8 = assign_slots_lem nodes new_scratchpad p2 refl in
    let c : few_slots ≡ true → few_carries ≡ true =
      λ few. assign_carries_lem nodes 0 p3 (ground (arith, few, s)) in
    (
      code,
      picked few_fields few_slots few_carries (rt.add_expr code) p1 p3 p4 pools pools' c
          ∙ ap₂ (λ (x y : Bool). if x && y then rt.add_expr code else none) f s,
    )

-- `compile_expression` on a pool without cycles: the analysis ends, and the compiler hands its code
-- to the runtime if the expression has at most eight fields and at most eight nodes that need a slot.
-- With more it gives `nullptr`. There is no other early return: the carries never run out.
pub compile_expression-returns :
    (rt : JitRuntime) (fresh : ℕ → ℕ) (p : NodePool) (root : ℕ) (pools : ConstPool)
    → IsAcyclic p
    → root < max_nodes
    → (a : Analysis) × (code : List Instr) × (kernel : Option ExprKernelFunc) × (q : NodePool)
      × (after : ConstPool) × (analyze max_nodes (some root) (new_analysis p) ≡ some a)
      × (compile_expression rt fresh (some root) p pools ≡ some (kernel, q, after))
      × (kernel ≡ (if fits a then rt.add_expr code else none))
unfolding compile_expression
compile_expression-returns rt fresh p root pools ok h =
    let ended =
      analyze-Ended (λ a. Unit {0}) (λ i a r s n l q inv. tt) max_nodes (some root) (new_analysis p)
        (omega arith) h ok (new-IsClosed p) tt in
    let a = ended.result in
    let (code, e) = compile_analyzed_lem rt fresh root a pools in
    let done = compile_analyzed rt fresh root a pools in
    (a, code, done.0, done.1, done.2, ended.ends, rw (compile_expression, ended.ends) refl, e)
