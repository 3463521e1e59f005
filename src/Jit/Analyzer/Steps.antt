-- ===== src/Jit/Analyzer/Steps.antt =====
-- What one step of the visit changes.
use apex_engine.Common.{
  ℕ, ◌<◌, ◌≤◌, ◌≡◌, refl, sym, ◌∙◌, ap, arith, true, [], ◌∷◌, ◌++◌, none, some, length, length-set,
  get_or-set_self, get_or-set_ne, ℕ_discrete, if◌then◌else◌, ◌==◌,
}
use apex_engine.Ir.{
  Node, NodePool, NodeKind, ResultKind, Pointer, bitplane, bitmask, node_at, fresh_node, load,
  const, add, sub, gt, lt, eq, and, or, not_, select, lsl, lsr,
}
use apex_engine.Ir.Acyclic.{IsAcyclic}
use apex_engine.Jit.Analyzer.{Analysis, is_visited, mark, categorize, finish}

-- The same links and the same content.
abbrev pub SameTree : Node → Node → Type 0
SameTree m n =
    (n.left ≡ m.left)
    × (n.right ≡ m.right)
    × (n.cond ≡ m.cond)
    × (n.kind ≡ m.kind)
    × (n.field_name ≡ m.field_name)
    × (n.const_value ≡ m.const_value)

mark-SameTree :
    (i : ℕ) (k : ResultKind) (p : NodePool)
    → i < length p.storage
    → (j : ℕ) → SameTree (node_at p j) (node_at (mark i k p) j)
unfolding mark
mark-SameTree i k p h j = elim (ℕ_discrete i j) [
  | yes here ↦ rw (sym here) (
      rw (get_or-set_self p.storage i (record (node_at p i) { result_kind = k }) fresh_node h)
        (refl, refl, refl, refl, refl, refl))
  | no there ↦
      rw (get_or-set_ne p.storage i j (record (node_at p i) { result_kind = k }) fresh_node there)
        (refl, refl, refl, refl, refl, refl)
]

categorize-pool :
    (i : ℕ) (kind : NodeKind) (a : Analysis)
    → (k : ResultKind) × ((categorize i kind a).pool ≡ mark i k a.pool)
unfolding categorize
categorize-pool i load a = (bitplane, refl)
categorize-pool i const a = (bitplane, refl)
categorize-pool i add a = (bitplane, refl)
categorize-pool i sub a = (bitplane, refl)
categorize-pool i lsl a = (bitplane, refl)
categorize-pool i lsr a = (bitplane, refl)
categorize-pool i gt a = (bitmask, refl)
categorize-pool i lt a = (bitmask, refl)
categorize-pool i eq a = (bitmask, refl)
categorize-pool i and a = (bitmask, refl)
categorize-pool i or a = (bitmask, refl)
categorize-pool i not_ a = (bitmask, refl)
categorize-pool i select a = (bitmask, refl)

categorize-lists :
    (i : ℕ) (kind : NodeKind) (a : Analysis)
    → ((categorize i kind a).node_map ≡ a.node_map)
      × ((categorize i kind a).all_nodes ≡ a.all_nodes)
unfolding categorize
categorize-lists i load a = (refl, refl)
categorize-lists i const a = (refl, refl)
categorize-lists i add a = (refl, refl)
categorize-lists i sub a = (refl, refl)
categorize-lists i lsl a = (refl, refl)
categorize-lists i lsr a = (refl, refl)
categorize-lists i gt a = (refl, refl)
categorize-lists i lt a = (refl, refl)
categorize-lists i eq a = (refl, refl)
categorize-lists i and a = (refl, refl)
categorize-lists i or a = (refl, refl)
categorize-lists i not_ a = (refl, refl)
categorize-lists i select a = (refl, refl)

-- A node that was visited, or null.
abbrev pub IsDone : Analysis → Pointer → Type 0
IsDone a p = elim p [ none ↦ 0 ≤ 0 | some i ↦ is_visited i a.node_map ≡ true ]

-- Every operand of a visited node was visited.
pub record IsClosed (a : Analysis) : Type 0 where
  pub left : (i : ℕ) → is_visited i a.node_map ≡ true → IsDone a (node_at a.pool i).left
  pub right : (i : ℕ) → is_visited i a.node_map ≡ true → IsDone a (node_at a.pool i).right
  pub cond : (i : ℕ) → is_visited i a.node_map ≡ true → IsDone a (node_at a.pool i).cond

-- What a visit leaves: the same links, and no fewer visited nodes.
pub record Extends (a b : Analysis) : Type 0 where
  pub links : (j : ℕ) → SameTree (node_at a.pool j) (node_at b.pool j)
  pub size : length b.pool.storage ≡ length a.pool.storage
  pub kept : (j : ℕ) → is_visited j a.node_map ≡ true → is_visited j b.node_map ≡ true

pub IsDone-kept : {a b : Analysis} → Extends a b → (p : Pointer) → IsDone a p → IsDone b p
IsDone-kept e none h = h
IsDone-kept e (some i) h = e.kept i h

pub Extends-refl : (a : Analysis) → Extends a a
Extends-refl a = record {
  links = λ j. (refl, refl, refl, refl, refl, refl);
  size = refl;
  kept = λ j h. h;
}

pub Extends-trans : {a b c : Analysis} → Extends a b → Extends b c → Extends a c
Extends-trans e f = record {
  links = λ j.
      let (l, r, c, k, n, v) = e.links j in
      let (l', r', c', k', n', v') = f.links j in (l' ∙ l, r' ∙ r, c' ∙ c, k' ∙ k, n' ∙ n, v' ∙ v);
  size = f.size ∙ e.size;
  kept = λ j h. f.kept j (e.kept j h);
}

pub Extends-IsAcyclic : {a b : Analysis} → Extends a b → IsAcyclic a.pool → IsAcyclic b.pool
Extends-IsAcyclic e ok = record {
  links = λ j.
      let (l, r, c, k, n, v) = e.links j in
      let below = ok.links j in
      record { left = rw l (below.left); right = rw r (below.right); cond = rw c (below.cond) };
  size = e.size ∙ ok.size;
}

module _ (i : ℕ) (a : Analysis) where
  pub finish-visited :
      (j : ℕ)
      → is_visited j (finish i a).node_map ≡ (if i == j then true else is_visited j a.node_map)
  unfolding finish is_visited
  finish-visited j =
      rw
        ((categorize-lists i (node_at a.pool i).kind
          (record a { all_nodes = a.all_nodes ++ i ∷ [] })).0)
        refl

  pub finish-all_nodes : (finish i a).all_nodes ≡ a.all_nodes ++ i ∷ []
  unfolding finish
  finish-all_nodes =
      (categorize-lists i (node_at a.pool i).kind
        (record a { all_nodes = a.all_nodes ++ i ∷ [] })).1

  pub finish-Extends : i < length a.pool.storage → Extends a (finish i a)
  unfolding finish mark
  finish-Extends h =
      let pushed = record a { all_nodes = a.all_nodes ++ i ∷ [] } in
      let (k, same) = categorize-pool i (node_at a.pool i).kind pushed in
      record {
        links = λ j. rw same (mark-SameTree i k a.pool h j);
        size =
            ap (λ (p : NodePool). length p.storage) same
            ∙ length-set a.pool.storage i (record (node_at a.pool i) { result_kind = k });
        kept = λ j done. finish-visited j ∙ ground (arith, done);
      }
