-- ===== src/Jit/Expression/Kernel.antt =====
-- `compile_expression` and its kernel together.
use apex_engine.Common.{
  ℕ, ◌+◌, ◌*◌, ◌<◌, ◌≤◌, ◌≡◌, refl, sym, ◌∙◌, ap, arith, true, Option, none, some, length, ◌==◌,
  Bool, false, Name,
}
use apex_engine.Word.{two64, IsU64, test_bit}
use apex_engine.Arm64.{Cpu, JitRuntime, go}
use apex_engine.Ir.{NodePool, node_at, max_nodes}
use apex_engine.Ir.Acyclic.{IsAcyclic}
use apex_engine.Jit.Analyzer.{Analysis, is_visited, analyze}
use apex_engine.Jit.Analyzer.Steps.{SameTree, Extends-IsAcyclic}
use apex_engine.Jit.Analyzer.Total.{new_analysis, analyze-Ended, new-IsClosed}
use apex_engine.Jit.Analyzer.Arranged.{IsArranged, finish-IsArranged, new-IsArranged}
use apex_engine.Jit.ConstPool.{ConstPool}
use apex_engine.Jit.ConstPool.Planes.{IsFilled}
use apex_engine.Jit.Scalar.Value.{Value, flag}
use apex_engine.Jit.Scalar.Listed.{IsListed, finish-IsListed}
use apex_engine.Jit.Scalar.Kernel.{Value-SameTree, new-IsListed}
use apex_engine.Jit.Expression.Compile.{compile_expression}
use apex_engine.Jit.Expression.Totality.{fits}
use apex_engine.Jit.Expression.Constants.{HoldsConstants}
use apex_engine.Jit.Expression.Frame.{HasFrame, framed, RestoresAll}
use apex_engine.Jit.Expression.Correct.{expression_code-evaluates}
use apex_engine.Jit.Expression.Sliced.{
  IsSum, sum_load, sum_const, sum_add, IsPredicate, by_gt, by_lt, by_and, Value-unique,
  IsPredicate-HasMarks, collect-HasTests,
}
use apex_engine.Jit.Expression.Final.{
  created, final_pool, final_comparisons, final_code, final-SameTree, final-IsAcyclic, compiled_lem,
  fits_nodes,
}
use apex_engine.Jit.Expression.Analyzed.{IsAnalyzed, HoldsFields}
use apex_engine.Jit.Expression.Numbered.{final-AreNumbered, final-AreComparable}

abbrev result_of : Analysis → Option Analysis → Analysis
result_of d none = d
result_of d (some a) = a

-- What is known of an analysis that ended.
record IsComplete (p : NodePool) (root : ℕ) (a : Analysis) : Type 0 where
  analyzed : IsAnalyzed a
  visited : is_visited root a.node_map ≡ true
  same : (j : ℕ) → SameTree (node_at p j) (node_at a.pool j)
  acyclic : IsAcyclic a.pool

analyze-IsComplete :
    (p : NodePool) (root : ℕ) (a : Analysis)
    → IsAcyclic p
    → root < max_nodes
    → analyze max_nodes (some root) (new_analysis p) ≡ some a
    → IsComplete p root a
analyze-IsComplete p root a ok h e =
    let first =
      analyze-Ended IsArranged finish-IsArranged max_nodes (some root) (new_analysis p)
        (omega arith) h ok (new-IsClosed p) (new-IsArranged p) in
    let second =
      analyze-Ended IsListed finish-IsListed max_nodes (some root) (new_analysis p) (omega arith) h
        ok (new-IsClosed p) (new-IsListed p) in
    let b = first.result in
    let is_a : b ≡ a = ap (result_of b) (sym first.ends ∙ e) in
    let is_b : second.result ≡ b = ap (result_of b) (sym second.ends ∙ first.ends) in
    let listed = second.invariant in
    let complete : IsComplete p root b = record {
      analyzed = record {
        arranged = first.invariant;
        listed = rw is_b at listed;
        closed = first.closed;
        size = first.extends.size ∙ ok.size;
      };
      visited = first.visited;
      same = first.extends.links;
      acyclic = Extends-IsAcyclic first.extends ok;
    } in
    rw is_a at complete

-- The same trees have the same sums and predicates.
module _ {p q : NodePool} (same : (j : ℕ) → SameTree (node_at p j) (node_at q j)) where
  IsSum-SameTree : {i : ℕ} → IsSum p i → IsSum q i
  IsSum-SameTree {i} (sum_load e) = sum_load ((same i).3 ∙ e)
  IsSum-SameTree {i} (sum_const e) = sum_const ((same i).3 ∙ e)
  IsSum-SameTree {i} (sum_add e l r a b) =
      sum_add ((same i).3 ∙ e) ((same i).0 ∙ l) ((same i).1 ∙ r) (IsSum-SameTree a)
        (IsSum-SameTree b)

  IsPredicate-SameTree : {i : ℕ} → IsPredicate p i → IsPredicate q i
  IsPredicate-SameTree {i} (by_gt e l r a b) =
      by_gt ((same i).3 ∙ e) ((same i).0 ∙ l) ((same i).1 ∙ r) (IsSum-SameTree a) (IsSum-SameTree b)
  IsPredicate-SameTree {i} (by_lt e l r a b) =
      by_lt ((same i).3 ∙ e) ((same i).0 ∙ l) ((same i).1 ∙ r) (IsSum-SameTree a) (IsSum-SameTree b)
  IsPredicate-SameTree {i} (by_and e l r a b) =
      by_and ((same i).3 ∙ e) ((same i).0 ∙ l) ((same i).1 ∙ r) (IsPredicate-SameTree a)
        (IsPredicate-SameTree b)

-- A truth value as a number, and back.
flag_true : (b : Bool) (v : ℕ) → v ≡ flag b → b ≡ (v == 1)
flag_true true v e = ground (arith, e)
flag_true false v e = ground (arith, e)

-- The code for a finished analysis.
analyzed-evaluates :
    (fresh : ℕ → ℕ) (p : NodePool) (root : ℕ) (a : Analysis) (pools : ConstPool)
    (field : ℕ → Name → ℕ) (flags : ℕ → ℕ) (c : Cpu)
    → IsComplete p root a
    → root < max_nodes
    → fits a ≡ true
    → IsFilled pools
    → let q = final_pool fresh a pools in
      let call = framed 512 c in
      HasFrame 512 c
      → c.reg 1 + 8 * 512 ≤ two64
      → HoldsFields q call field a.all_nodes
      → HoldsConstants call (created fresh a pools).2
      → ((r : ℕ) (name : Name) → IsU64 (field r name))
      → IsPredicate p root
      → length (final_comparisons fresh a pools root) ≤ 3
      → ((r : ℕ) → r < 64 → Value p (field r) root (flags r))
      → let code = final_code fresh a pools root in
        (fuel : ℕ) × (d : Cpu) × (go fuel code code c ≡ some d)
        × ((r : ℕ) → r < 64 → test_bit (d.reg 0) r ≡ (flags r == 1))
        × RestoresAll c d
analyzed-evaluates fresh p root a pools field flags c done h enough filled frame room fields memory
      words predicate three values =
    let q = final_pool fresh a pools in
    let call = framed 512 c in
    let few = fits_nodes a enough in
    let tree = final-SameTree fresh a pools in
    let predicate_q =
      IsPredicate-SameTree {p = a.pool} {q = q} tree
        (IsPredicate-SameTree {p = p} {q = a.pool} done.same predicate) in
    let m = IsPredicate-HasMarks q field predicate_q in
    let tests = collect-HasTests max_nodes (final-IsAcyclic fresh a pools done.acyclic) h m.marks in
    let numbered =
      final-AreNumbered fresh a pools done.analyzed filled few memory fields room (omega arith)
        words in
    let comparable =
      final-AreComparable fresh a pools done.analyzed filled few memory fields root done.visited in
    let (fuel, d, stopped, mask, restored) =
      expression_code-evaluates (created fresh a pools).0 q a.arithmetic_nodes
        (final_comparisons fresh a pools root) field tests.tested 512 c frame numbered comparable
        three tests.tests in
    let specified : (r : ℕ) → r < 64 → m.marked r ≡ (flags r == 1) = λ r hr.
      let value : Value q (field r) root (flags r) =
        Value-SameTree {p = a.pool} {q = q} tree
          (Value-SameTree {p = p} {q = a.pool} done.same (values r hr)) in
      flag_true (m.marked r) (flags r) (Value-unique value (m.specified r)) in
    (fuel, d, stopped, (λ r hr. mask r hr ∙ tests.same r ∙ specified r hr), restored)

-- `compile_expression` and what it makes, end to end, for a predicate of comparisons by `GT` and `LT`
-- of sums, and of conjunctions, in a pool without cycles, with at most eight fields, eight sums and
-- three comparisons: it hands code to the runtime. Called on the planes of fields of 64 bits, with
-- the constants' planes in memory, the code returns a mask whose bit `r` says whether the predicate, as it stands in
-- the pool before the compilation, is true on row `r`, and restores registers and stack.
pub compile_expression-evaluates :
    (rt : JitRuntime) (fresh : ℕ → ℕ) (p : NodePool) (root : ℕ) (a : Analysis) (pools : ConstPool)
    (field : ℕ → Name → ℕ) (flags : ℕ → ℕ) (c : Cpu)
    → IsAcyclic p
    → root < max_nodes
    → analyze max_nodes (some root) (new_analysis p) ≡ some a
    → fits a ≡ true
    → IsFilled pools
    → let q = final_pool fresh a pools in
      let call = framed 512 c in
      HasFrame 512 c
      → c.reg 1 + 8 * 512 ≤ two64
      → HoldsFields q call field a.all_nodes
      → HoldsConstants call (created fresh a pools).2
      → ((r : ℕ) (name : Name) → IsU64 (field r name))
      → IsPredicate p root
      → length (final_comparisons fresh a pools root) ≤ 3
      → ((r : ℕ) → r < 64 → Value p (field r) root (flags r))
      → let code = final_code fresh a pools root in
        (compile_expression rt fresh (some root) p pools
          ≡ some (rt.add_expr code, q, (created fresh a pools).2))
        × (fuel : ℕ) × (d : Cpu) × (go fuel code code c ≡ some d)
        × ((r : ℕ) → r < 64 → test_bit (d.reg 0) r ≡ (flags r == 1))
        × RestoresAll c d
unfolding compile_expression
compile_expression-evaluates rt fresh p root a pools field flags c ok h e enough filled frame room
      fields memory words predicate three values =
    let (fuel, d, stopped, mask, restored) =
      analyzed-evaluates fresh p root a pools field flags c (analyze-IsComplete p root a ok h e) h
        enough filled frame room fields memory words predicate three values in
    let compiled = compiled_lem fresh a pools rt root enough in
    (rw (compile_expression, e, compiled) refl, fuel, d, stopped, mask, restored)
