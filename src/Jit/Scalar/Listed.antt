-- ===== src/Jit/Scalar/Listed.antt =====
-- The analyzer lists operands before the nodes that use them, and each node once.
use mathlib.Core.List.{append_assoc, append-nil}
use apex_engine.Common.{
  ℕ, ◌+◌, ◌≤◌, ◌≡◌, sym, ◌∙◌, ap, arith, Bool, true, not, List, [], ◌∷◌, ◌++◌, some, length,
  get_elem?, ℕ_discrete,
}
use apex_engine.Word.Count.{count_below, count_below-less}
use apex_engine.Ir.{NodePool, Pointer, node_at, max_nodes}
use apex_engine.Jit.Analyzer.{Analysis, is_visited, finish}
use apex_engine.Jit.Analyzer.Steps.{
  SameTree, IsDone, finish-visited, finish-all_nodes, finish-Extends,
}
use apex_engine.Jit.Analyzer.Total.{Kept}
use apex_engine.Jit.Scalar.Row.{Evaluated}
use apex_engine.Jit.Scalar.Steps.{get_elem?-append_left, get_elem?-length}
use apex_engine.Jit.Scalar.Whole.{Ordered, length-snoc}

pub Ordered-congr :
    (p q : NodePool) (before rest : List ℕ)
    → ((j : ℕ) → SameTree (node_at p j) (node_at q j))
    → Ordered p before rest
    → Ordered q before rest
Ordered-congr p q before [] same o = omega arith
Ordered-congr p q before (i ∷ rest) same (l, r, o) = (
  λ j e. l j (sym ((same i).0) ∙ e),
  λ j e. r j (sym ((same i).1) ∙ e),
  Ordered-congr p q (before ++ i ∷ []) rest same o,
)

Ordered-snoc :
    (p : NodePool) (before rest : List ℕ) (i : ℕ)
    → Ordered p before rest
    → Evaluated (before ++ rest) (node_at p i).left
    → Evaluated (before ++ rest) (node_at p i).right
    → Ordered p before (rest ++ i ∷ [])
Ordered-snoc p before [] i o l r =
    let e : before ++ [] ≡ before = append-nil before in (rw e at l, rw e at r, omega arith)
Ordered-snoc p before (n ∷ rest) i (a, b, o) l r =
    let e : (before ++ n ∷ []) ++ rest ≡ before ++ n ∷ rest = append_assoc before (n ∷ []) rest in
    (a, b, Ordered-snoc p (before ++ n ∷ []) rest i o (rw e l) (rw e r))

abbrev pub unvisited : Analysis → ℕ → Bool
unvisited a k = not (is_visited k a.node_map)

pub record IsListed (a : Analysis) : Type 0 where
  pub listed :
      (j : ℕ) → is_visited j a.node_map ≡ true → (k : ℕ) × (get_elem? a.all_nodes k ≡ some j)
  pub ordered : Ordered a.pool [] a.all_nodes
  pub bounded : length a.all_nodes + count_below max_nodes (unvisited a) ≤ max_nodes

pub finish-IsListed : Kept IsListed
finish-IsListed i a room small new left right l =
    let all = a.all_nodes in
    let b = finish i a in
    let same = (finish-Extends i a room).links in
    let found =
      λ (q : Pointer) (done : IsDone a q) (j : ℕ) (e : q ≡ some j). l.listed j (rw e at done) in
    let fresh =
      count_below-less max_nodes i (unvisited a) (unvisited b) small (ap not new)
        (ap not (finish-visited i a i) ∙ ground arith)
        (λ k h. ap not (finish-visited i a k) ∙ ground (arith, h)) in
    record {
      listed = λ j done. rw (finish-all_nodes i a) (elim (ℕ_discrete i j) [
        | yes here ↦ (length all, get_elem?-length all i ∙ ap some here)
        | no there ↦
            let old : is_visited j a.node_map ≡ true =
              ground (arith, sym (finish-visited i a j) ∙ done, there) in
            let (k, g) = l.listed j old in (k, get_elem?-append_left all (i ∷ []) k j g)
      ]);
      ordered = rw (finish-all_nodes i a) (
          Ordered-congr a.pool b.pool [] (all ++ i ∷ []) same (
            Ordered-snoc a.pool [] all i (l.ordered) (found (node_at a.pool i).left left)
              (found (node_at a.pool i).right right)));
      bounded =
          omega (arith, l.bounded, fresh, ap length (finish-all_nodes i a), length-snoc all i);
    }
