-- ===== src/Jit/Expression/Analyzed.antt =====
-- What `compile_expression` knows of a finished analysis, and of the planes in memory.
use apex_engine.Common.{
  ℕ, zero, suc, ◌≡◌, List, [], ◌∷◌, ◌++◌, some, length, get_elem?, ◌⊎◌, inl, inr, Name,
}
use apex_engine.Ir.{NodePool, node_at, max_nodes, load, const}
use apex_engine.Jit.Analyzer.{Analysis}
use apex_engine.Jit.Analyzer.Steps.{IsClosed}
use apex_engine.Jit.Analyzer.Arranged.{IsArranged}
use apex_engine.Jit.Emit.{to_u64, c_string}
use apex_engine.Jit.Scalar.Row.{Call}
use apex_engine.Jit.Scalar.Listed.{IsListed}
use apex_engine.Jit.Expression.Columns.{
  Column, field_column, const_column, sum_column, difference_column,
}
use apex_engine.Jit.Expression.Operands.{HoldsPlanes, FieldPlanes}

-- A finished analysis.
pub record IsAnalyzed (a : Analysis) : Type 0 where
  pub arranged : IsArranged a
  pub listed : IsListed a
  pub closed : IsClosed a
  pub size : length a.pool.storage ≡ max_nodes

-- The planes of the fields that an analysis lists.
abbrev pub HoldsFields : NodePool → Call → (ℕ → Name → ℕ) → List ℕ → Type 0
HoldsFields q call field nodes =
    (m j : ℕ)
    → get_elem? nodes m ≡ some j
    → (node_at q j).kind ≡ load
    → FieldPlanes q call j (λ r. field r (c_string (node_at q j).field_name))

pub field_planes :
    {q : NodePool} {field : ℕ → Name → ℕ} {call : Call} {j : ℕ} {v : ℕ → ℕ}
    → (node_at q j).kind ≡ load
    → Column q field j v
    → FieldPlanes q call j (λ r. field r (c_string (node_at q j).field_name))
    → FieldPlanes q call j v
field_planes e (field_column f) h = h
field_planes e (const_column f) h = cc
field_planes e (sum_column f l r x y) h = cc
field_planes e (difference_column f l r x y) h = cc

pub const_planes :
    {q : NodePool} {field : ℕ → Name → ℕ} {call : Call} {j base : ℕ} {v : ℕ → ℕ}
    → (node_at q j).kind ≡ const
    → Column q field j v
    → HoldsPlanes call base (λ r. to_u64 (node_at q j).const_value)
    → HoldsPlanes call base v
const_planes e (field_column f) h = cc
const_planes e (const_column f) h = h
const_planes e (sum_column f l r x y) h = cc
const_planes e (difference_column f l r x y) h = cc

pub only : (l m i : ℕ) → get_elem? (l ∷ []) m ≡ some i → i ≡ l
only l zero i g = cc g
only l (suc m) i g = absurd (cc g)

pub get_elem?-append :
    (xs ys : List ℕ) (m i : ℕ)
    → get_elem? (xs ++ ys) m ≡ some i
    → ((k : ℕ) × (get_elem? xs k ≡ some i)) ⊎ ((k : ℕ) × (get_elem? ys k ≡ some i))
get_elem?-append [] ys m i g = inr (m, g)
get_elem?-append (x ∷ xs) ys zero i g = inl (0, g)
get_elem?-append (x ∷ xs) ys (suc m) i g = elim (get_elem?-append xs ys m i g) [
  | inl (k, f) ↦ inl (suc k, f)
  | inr (k, f) ↦ inr (k, f)
]
