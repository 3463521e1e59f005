-- ===== src/Jit/Analyzer/Total.antt =====
-- The visit ends, and collects whole expressions.
use apex_engine.Common.{
  ℕ, zero, suc, ◌<◌, ◌≤◌, ◌≡◌, refl, sym, ◌∙◌, arith, true, false, ◌∷◌, ◌++◌, List, [], none, some,
  length, ℕ_discrete, Bool-cases, inl, inr, ◌⊎◌,
}
use apex_engine.Ir.{NodePool, Pointer, node_at, max_nodes}
use apex_engine.Ir.Acyclic.{IsAcyclic, PointsBelow}
use apex_engine.Jit.Analyzer.{Analysis, is_visited, finish, analyze}
use apex_engine.Jit.Analyzer.Steps.{
  IsDone, IsDone-kept, IsClosed, Extends, Extends-refl, Extends-trans, Extends-IsAcyclic,
  finish-visited, finish-all_nodes, finish-Extends,
}

weaken : {i n : ℕ} (p : Pointer) → i ≤ n → PointsBelow i p → PointsBelow n p
weaken none h b = omega arith
weaken (some j) h b = omega arith

module _ (i : ℕ) (a : Analysis) (h : i < length a.pool.storage) (closed : IsClosed a)
    (dl : IsDone a (node_at a.pool i).left) (dr : IsDone a (node_at a.pool i).right)
    (dc : IsDone a (node_at a.pool i).cond) where
  old_or_new :
      (j : ℕ)
      → is_visited j (finish i a).node_map ≡ true
      → (i ≡ j) ⊎ (is_visited j a.node_map ≡ true)
  old_or_new j done = elim (ℕ_discrete i j) [
    | yes here ↦ inl here
    | no there ↦ inr (ground (arith, sym (finish-visited i a j) ∙ done, there))
  ]

  IsDone-after : {p q : Pointer} → q ≡ p → IsDone a p → IsDone (finish i a) q
  IsDone-after {p} e d = rw e (IsDone-kept (finish-Extends i a h) p d)

  finish-IsClosed : IsClosed (finish i a)
  finish-IsClosed = record {
    left = λ j done.
        IsDone-after ((finish-Extends i a h).links j).0
          (elim (old_or_new j done) [ inl here ↦ rw (sym here) dl | inr old ↦ closed.left j old ]);
    right = λ j done.
        IsDone-after ((finish-Extends i a h).links j).1
          (elim (old_or_new j done) [ inl here ↦ rw (sym here) dr | inr old ↦ closed.right j old ]);
    cond = λ j done.
        IsDone-after ((finish-Extends i a h).links j).2
          (elim (old_or_new j done) [ inl here ↦ rw (sym here) dc | inr old ↦ closed.cond j old ]);
  }

-- After a visit of `p`: nodes behind `p` are as they were, and a node that is new comes last.
abbrev pub Marks : Pointer → Analysis → Analysis → Type 0
Marks p a b = elim p [
  | none ↦ (k : ℕ) → is_visited k b.node_map ≡ is_visited k a.node_map
  | some i ↦
      ((k : ℕ) → i < k → is_visited k b.node_map ≡ is_visited k a.node_map)
      × (is_visited i a.node_map ≡ false → (xs : List ℕ) × (b.all_nodes ≡ xs ++ i ∷ []))
]

Marks-above :
    (a b : Analysis) (p : Pointer) {i : ℕ}
    → PointsBelow i p
    → Marks p a b
    → (k : ℕ) → i ≤ k
    → is_visited k b.node_map ≡ is_visited k a.node_map
Marks-above a b none h m k le = m k
Marks-above a b (some j) h m k le = m.0 k (omega arith)

-- A property of the analysis that a visit keeps, where its end keeps it.
abbrev pub Kept : (Analysis → Type 0) → Type 0
Kept Inv =
    (i : ℕ) (a : Analysis)
    → i < length a.pool.storage
    → i < max_nodes
    → is_visited i a.node_map ≡ false
    → IsDone a (node_at a.pool i).left
    → IsDone a (node_at a.pool i).right
    → Inv a
    → Inv (finish i a)

-- A visit that ended, with the pointer visited.
pub record Ended (Inv : Analysis → Type 0) (fuel : ℕ) (p : Pointer) (a : Analysis) : Type 0 where
  pub result : Analysis
  pub ends : analyze fuel p a ≡ some result
  pub extends : Extends a result
  pub closed : IsClosed result
  pub visited : IsDone result p
  pub marks : Marks p a result
  pub invariant : Inv result

module _ (Inv : Analysis → Type 0) (keep : Kept Inv) where
  null-Ended :
      (fuel : ℕ) (a : Analysis)
      → analyze fuel none a ≡ some a
      → IsClosed a
      → Inv a
      → Ended Inv fuel none a
  null-Ended fuel a e closed inv = record {
    result = a;
    ends = e;
    extends = Extends-refl a;
    closed = closed;
    visited = omega arith;
    marks = λ k. refl;
    invariant = inv;
  }

  pub analyze-Ended :
      (fuel : ℕ) (p : Pointer) (a : Analysis)
      → fuel ≤ max_nodes
      → PointsBelow fuel p
      → IsAcyclic a.pool
      → IsClosed a
      → Inv a
      → Ended Inv fuel p a
  unfolding analyze
  analyze-Ended zero none a small below ok closed inv = null-Ended zero a refl closed inv
  analyze-Ended (suc n) none a small below ok closed inv = null-Ended (suc n) a refl closed inv
  analyze-Ended zero (some i) a small below ok closed inv = absurd (omega arith)
  analyze-Ended (suc n) (some i) a small below ok closed inv =
      elim (Bool-cases (is_visited i a.node_map)) [
        | inl seen ↦ record {
          result = a;
          ends = rw seen refl;
          extends = Extends-refl a;
          closed = closed;
          visited = seen;
          marks = ((λ k h. refl), λ new. absurd (cc (seen, new)));
          invariant = inv;
        }
        | inr new ↦
            let la = ok.links i in
            let eb =
              analyze-Ended n (node_at a.pool i).left a (omega arith)
                (weaken (node_at a.pool i).left (omega arith) la.left) ok closed inv in
            let b = eb.result in
            let okb = Extends-IsAcyclic (eb.extends) ok in
            let ec =
              analyze-Ended n (node_at b.pool i).right b (omega arith)
                (weaken (node_at b.pool i).right (omega arith) ((okb.links i).right)) okb
                (eb.closed) (eb.invariant) in
            let c = ec.result in
            let okc = Extends-IsAcyclic (ec.extends) okb in
            let ed =
              analyze-Ended n (node_at c.pool i).cond c (omega arith)
                (weaken (node_at c.pool i).cond (omega arith) ((okc.links i).cond)) okc (ec.closed)
                (ec.invariant) in
            let d = ed.result in
            let xcd = Extends-trans (ec.extends) (ed.extends) in
            let xad = Extends-trans (eb.extends) xcd in
            let room : i < length d.pool.storage = omega (arith, xad.size, ok.size) in
            let left : IsDone d (node_at d.pool i).left =
              rw ((xad.links i).0) (IsDone-kept xcd (node_at a.pool i).left (eb.visited)) in
            let right : IsDone d (node_at d.pool i).right =
              rw ((xcd.links i).1)
                (IsDone-kept (ed.extends) (node_at b.pool i).right (ec.visited)) in
            let under : IsDone d (node_at d.pool i).cond =
              rw ((ed.extends.links i).2) (ed.visited) in
            let same = λ (k : ℕ) (h : i ≤ k).
              Marks-above c d (node_at c.pool i).cond ((okc.links i).cond) (ed.marks) k h
              ∙ Marks-above b c (node_at b.pool i).right ((okb.links i).right) (ec.marks) k h
              ∙ Marks-above a b (node_at a.pool i).left (la.left) (eb.marks) k h in
            record {
              result = finish i d;
              ends = rw new (rw (eb.ends) (rw (ec.ends) (rw (ed.ends) refl)));
              extends = Extends-trans xad (finish-Extends i d room);
              closed = finish-IsClosed i d room (ed.closed) left right under;
              visited = finish-visited i d i ∙ ground arith;
              marks = (
                λ k h. finish-visited i d k ∙ (ground (arith, h)) ∙ same k (omega arith),
                λ e. (d.all_nodes, finish-all_nodes i d),
              );
              invariant =
                  keep i d room (omega arith) (same i (omega arith) ∙ new) left right
                    (ed.invariant);
            }
      ]

-- The members of a new `ExpressionAnalyzer`.
abbrev pub new_analysis : NodePool → Analysis
new_analysis p = record {
  pool = p;
  node_map = [];
  load_nodes = [];
  const_nodes = [];
  arithmetic_nodes = [];
  all_nodes = [];
}

pub new-IsClosed : (p : NodePool) → IsClosed (new_analysis p)
unfolding is_visited
new-IsClosed p = record {
  left = λ i d. absurd (cc d);
  right = λ i d. absurd (cc d);
  cond = λ i d. absurd (cc d);
}

-- `j` is the root, or an operand of a node that occurs, whether its kind uses that operand or not.
pub data Occurs (p : NodePool) (root : ℕ) : ℕ → Type 0 where
  at_root : Occurs p root root
  at_left : {i j : ℕ} → Occurs p root i → (node_at p i).left ≡ some j → Occurs p root j
  at_right : {i j : ℕ} → Occurs p root i → (node_at p i).right ≡ some j → Occurs p root j
  at_cond : {i j : ℕ} → Occurs p root i → (node_at p i).cond ≡ some j → Occurs p root j

followed :
    (b : Analysis) (q : Pointer) {j : ℕ} → q ≡ some j → IsDone b q → is_visited j b.node_map ≡ true
followed b q same d = rw same at d

module _ {p : NodePool} {root : ℕ} {b : Analysis} (e : Extends (new_analysis p) b)
    (closed : IsClosed b) (done : is_visited root b.node_map ≡ true) where
  Occurs-visited : {j : ℕ} → Occurs p root j → is_visited j b.node_map ≡ true
  Occurs-visited at_root = done
  Occurs-visited (at_left {i} o same) =
      followed b _ ((e.links i).0 ∙ same) (closed.left i (Occurs-visited o))
  Occurs-visited (at_right {i} o same) =
      followed b _ ((e.links i).1 ∙ same) (closed.right i (Occurs-visited o))
  Occurs-visited (at_cond {i} o same) =
      followed b _ ((e.links i).2 ∙ same) (closed.cond i (Occurs-visited o))

-- On a pool without cycles, a new analyzer's visit of a root in the pool ends, within a recursion
-- depth of 128, and every node that occurs below the root, stale operands included, is in its map.
pub analyze-visits :
    (p : NodePool)
    → IsAcyclic p
    → (root j : ℕ) → root < max_nodes
    → Occurs p root j
    → (b : Analysis) × (analyze max_nodes (some root) (new_analysis p) ≡ some b)
      × (is_visited j b.node_map ≡ true)
analyze-visits p ok root j h o =
    let ended =
      analyze-Ended (λ a. Unit {0}) (λ i a r s n l q inv. tt) max_nodes (some root) (new_analysis p)
        (omega arith) h ok (new-IsClosed p) tt in
    (ended.result, ended.ends, Occurs-visited (ended.extends) (ended.closed) (ended.visited) o)
