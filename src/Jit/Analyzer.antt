-- ===== src/Jit/Analyzer.antt =====
-- `ExpressionAnalyzer` of src/jit/compiler.cpp: the depth-first visit that collects the nodes of an
-- expression. The recursion takes fuel; `none` is a recursion that is too deep for it.
pub mod Steps
pub mod Total
pub mod Arithmetic
pub mod Arranged
use apex_engine.Common.{
  ℕ, zero, suc, ◌-◌, Bool, true, false, List, [], ◌∷◌, ◌++◌, Option, none, some, set, length,
  if◌then◌else◌, ◌==◌, ◌>>=◌,
}
use apex_engine.Ir.{
  Node, NodePool, NodeKind, ResultKind, Pointer, bitplane, bitmask, node_at, load, const, add, sub,
  gt, lt, eq, and, or, not_, select, lsl, lsr,
}

-- The pool that the visit writes to, and its members. `node_map` is newest first.
pub record Analysis : Type 0 where
  pub pool : NodePool
  pub node_map : List (ℕ × ℕ)
  pub load_nodes : List ℕ
  pub const_nodes : List ℕ
  pub arithmetic_nodes : List ℕ
  pub all_nodes : List ℕ

-- `node_map.find(node) != node_map.end()`
unfoldable pub is_visited : ℕ → List (ℕ × ℕ) → Bool
is_visited i [] = false
is_visited i ((j, k) ∷ m) = if j == i then true else is_visited i m

-- `node->result_kind = kind`
unfoldable pub mark : ℕ → ResultKind → NodePool → NodePool
mark i kind p = record p { storage = set p.storage i (record (node_at p i) { result_kind = kind }) }

-- The `switch`.
unfoldable pub categorize : ℕ → NodeKind → Analysis → Analysis
categorize i load a = record a {
  pool = mark i bitplane a.pool;
  load_nodes = a.load_nodes ++ i ∷ [];
}
categorize i const a = record a {
  pool = mark i bitplane a.pool;
  const_nodes = a.const_nodes ++ i ∷ [];
}
categorize i add a = record a {
  pool = mark i bitplane a.pool;
  arithmetic_nodes = a.arithmetic_nodes ++ i ∷ [];
}
categorize i sub a = record a {
  pool = mark i bitplane a.pool;
  arithmetic_nodes = a.arithmetic_nodes ++ i ∷ [];
}
categorize i lsl a = record a {
  pool = mark i bitplane a.pool;
  arithmetic_nodes = a.arithmetic_nodes ++ i ∷ [];
}
categorize i lsr a = record a {
  pool = mark i bitplane a.pool;
  arithmetic_nodes = a.arithmetic_nodes ++ i ∷ [];
}
categorize i gt a = record a { pool = mark i bitmask a.pool }
categorize i lt a = record a { pool = mark i bitmask a.pool }
categorize i eq a = record a { pool = mark i bitmask a.pool }
categorize i and a = record a { pool = mark i bitmask a.pool }
categorize i or a = record a { pool = mark i bitmask a.pool }
categorize i not_ a = record a { pool = mark i bitmask a.pool }
categorize i select a = record a { pool = mark i bitmask a.pool }

-- Behind the children.
unfoldable pub finish : ℕ → Analysis → Analysis
finish i a =
    let pushed = record a { all_nodes = a.all_nodes ++ i ∷ [] } in
    let b = categorize i (node_at pushed.pool i).kind pushed in
    record b { node_map = (i, length b.all_nodes - 1) ∷ b.node_map }

-- `analyze`
unfoldable pub analyze : ℕ → Pointer → Analysis → Option Analysis
analyze fuel none a = some a
analyze zero (some i) a = none
analyze (suc fuel) (some i) a =
    let visit : Option Analysis = (do
      b ← analyze fuel (node_at a.pool i).left a
      c ← analyze fuel (node_at b.pool i).right b
      d ← analyze fuel (node_at c.pool i).cond c
      some (finish i d)) in
    if is_visited i a.node_map then some a else visit
