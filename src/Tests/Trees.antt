-- ===== src/Tests/Trees.antt =====
-- The tree builders at concrete inputs.
use apex_engine.Common.{arith, pos, some}
use apex_engine.Ir.{NodePool, new_pool, alloc, build, const_node, gt_node}
use apex_engine.Ir.Acyclic.{IsAcyclic, starts, steps, constants, binary, by_gt, reachable-IsAcyclic}

abbrev one_constant : NodePool
one_constant = (const_node (pos 5) new_pool).1

-- A constant compared with itself.
reachable-IsAcyclic_example : IsAcyclic (gt_node (some 0) (some 0) one_constant).1
unfolding const_node build alloc
reachable-IsAcyclic_example = reachable-IsAcyclic {p = (gt_node (some 0) (some 0) one_constant).1} (
    steps (steps starts (constants (pos 5)))
      (binary gt_node (some 0) (some 0) by_gt (omega arith) (omega arith)))
