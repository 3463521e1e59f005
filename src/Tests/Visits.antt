-- ===== src/Tests/Visits.antt =====
-- The expression analyzer at a concrete input.
use apex_engine.Common.{◌≡◌, refl, arith, pos, some, true}
use apex_engine.Ir.{NodePool, new_pool, max_nodes, alloc, build, const_node, not_node}
use apex_engine.Ir.Acyclic.{starts, steps, constants, unary, by_not, reachable-IsAcyclic}
use apex_engine.Jit.Analyzer.{Analysis, analyze, is_visited}
use apex_engine.Jit.Analyzer.Total.{at_root, at_left, new_analysis, analyze-visits}

abbrev constant : NodePool
constant = (const_node (pos 5) new_pool).1

abbrev negated : NodePool
negated = (not_node (some 0) constant).1

-- The visit of a negation reaches its operand.
analyze-visits_example :
    (b : Analysis) × (analyze max_nodes (some 1) (new_analysis negated) ≡ some b)
    × (is_visited 0 b.node_map ≡ true)
unfolding const_node not_node build alloc
analyze-visits_example =
    analyze-visits negated
      (reachable-IsAcyclic
        (steps (steps starts (constants (pos 5))) (unary not_node (some 0) by_not (omega arith))))
      1 0 (omega arith) (at_left at_root refl)
