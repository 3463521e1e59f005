-- ===== src/Jit/Expression/Comparisons.antt =====
-- `collect_comparisons` does not run out of fuel.
use apex_engine.Common.{
  ℕ, zero, suc, ◌≤◌, ◌≡◌, refl, ap₂, arith, List, [], ◌∷◌, ◌++◌, none, some, if◌then◌else◌,
}
use apex_engine.Ir.{NodePool, Pointer, node_at}
use apex_engine.Ir.Acyclic.{IsAcyclic, PointsBelow}
use apex_engine.Jit.Expression.{collect_comparisons, is_comparison, is_and}

pub PointsBelow-less : (n i : ℕ) (q : Pointer) → i ≤ n → PointsBelow i q → PointsBelow n q
PointsBelow-less n i none h b = omega arith
PointsBelow-less n i (some j) h b = omega (arith, b)

-- In a pool without cycles, more fuel than the number of the root collects nothing more.
pub collect_comparisons_fuel :
    (p : NodePool) (n m : ℕ) (root : Pointer)
    → IsAcyclic p
    → n ≤ m
    → PointsBelow n root
    → collect_comparisons m p root ≡ collect_comparisons n p root
unfolding collect_comparisons
collect_comparisons_fuel p n m none ok h below = refl
collect_comparisons_fuel p zero m (some i) ok h below = absurd (omega (arith, below))
collect_comparisons_fuel p (suc n) zero (some i) ok h below = absurd (omega arith)
collect_comparisons_fuel p (suc n) (suc m) (some i) ok h below =
    let node = node_at p i in
    let links = ok.links i in
    let left =
      collect_comparisons_fuel p n m node.left ok (omega arith)
        (PointsBelow-less n i node.left (omega (arith, below)) links.left) in
    let right =
      collect_comparisons_fuel p n m node.right ok (omega arith)
        (PointsBelow-less n i node.right (omega (arith, below)) links.right) in
    ap₂
      (λ (l r : List ℕ).
        if is_comparison node.kind then i ∷ [] else (if is_and node.kind then l ++ r else []))
      left right
