-- ===== src/Jit/Analyzer/Arranged.antt =====
-- What the analyzer's lists have in order when it ends.
use apex_engine.Common.{
  ℕ, ◌<◌, ◌≡◌, ◌≢◌, sym, ◌∙◌, ap, arith, Bool, true, false, List, [], ◌∷◌, ◌++◌, some, length,
  get_elem?, ℕ_discrete, if◌then◌else◌, ◌⊎◌, inl, inr, ◌==◌,
}
use apex_engine.Ir.{NodePool, bitplane, node_at, const, max_nodes}
use apex_engine.Jit.Analyzer.{Analysis, is_visited, finish}
use apex_engine.Jit.Analyzer.Steps.{IsDone, finish-visited, finish-Extends}
use apex_engine.Jit.Analyzer.Total.{Kept, new_analysis}
use apex_engine.Jit.Analyzer.Arithmetic.{
  is_arithmetic, is_const, carried-arithmetic, carried-bitplane, finish-arithmetic, finish-const,
  finish-result,
}
use apex_engine.Jit.Scalar.Nodes.{get_elem?-lt}
use apex_engine.Jit.Scalar.Steps.{get_elem?-append_left, get_elem?-append_last, get_elem?-length}
use apex_engine.Jit.Expression.{is_carried}

-- `ys` is `xs`, or `xs` with `i` behind it.
record Grown (xs ys : List ℕ) (i : ℕ) : Type 0 where
  keeps : (k j : ℕ) → get_elem? xs k ≡ some j → get_elem? ys k ≡ some j
  old_or_new :
      (k j : ℕ) → get_elem? ys k ≡ some j → (get_elem? xs k ≡ some j) ⊎ ((k ≡ length xs) × (j ≡ i))

if-Grown : (b : Bool) (xs : List ℕ) (i : ℕ) → Grown xs (if b then xs ++ i ∷ [] else xs) i
if-Grown true xs i = record {
  keeps = λ k j g. get_elem?-append_left xs (i ∷ []) k j g;
  old_or_new = λ k j g. get_elem?-append_last xs i k j g;
}
if-Grown false xs i = record { keeps = λ k j g. g; old_or_new = λ k j g. inl g }

if_added :
    (b : Bool) (xs : List ℕ) (i : ℕ)
    → b ≡ true
    → get_elem? (if b then xs ++ i ∷ [] else xs) (length xs) ≡ some i
if_added true xs i e = get_elem?-length xs i
if_added false xs i e = absurd (cc e)

-- `j` is an operand of `i`.
abbrev pub UsedBy : NodePool → (i j : ℕ) → Type 0
UsedBy p i j = ((node_at p i).left ≡ some j) ⊎ ((node_at p i).right ≡ some j)

-- Visited sums and differences are listed, once, with bit planes as their result, and behind those
-- among their operands; visited constants are listed.
pub record IsArranged (a : Analysis) : Type 0 where
  pub sums :
      (j : ℕ)
      → is_visited j a.node_map ≡ true
      → is_carried (node_at a.pool j).kind ≡ true
      → (k : ℕ) × (get_elem? a.arithmetic_nodes k ≡ some j)
  pub constants :
      (j : ℕ)
      → is_visited j a.node_map ≡ true
      → (node_at a.pool j).kind ≡ const
      → (k : ℕ) × (get_elem? a.const_nodes k ≡ some j)
  pub results :
      (j : ℕ)
      → is_visited j a.node_map ≡ true
      → is_carried (node_at a.pool j).kind ≡ true
      → (node_at a.pool j).result_kind ≡ bitplane
  pub seen :
      (m j : ℕ)
      → get_elem? a.arithmetic_nodes m ≡ some j
      → (is_visited j a.node_map ≡ true) × (j < max_nodes)
  pub distinct :
      (m n j : ℕ)
      → get_elem? a.arithmetic_nodes m ≡ some j
      → get_elem? a.arithmetic_nodes n ≡ some j
      → m ≡ n
  pub operands :
      (m i j : ℕ)
      → get_elem? a.arithmetic_nodes m ≡ some i
      → UsedBy a.pool i j
      → is_carried (node_at a.pool j).kind ≡ true
      → (k : ℕ) × (k < m) × (get_elem? a.arithmetic_nodes k ≡ some j)

pub new-IsArranged : (p : NodePool) → IsArranged (new_analysis p)
unfolding is_visited
new-IsArranged p = record {
  sums = λ j v t. absurd (cc v);
  constants = λ j v t. absurd (cc v);
  results = λ j v t. absurd (cc v);
  seen = λ m j g. absurd (cc g);
  distinct = λ m n j f g. absurd (cc f);
  operands = λ m i j g u t. absurd (cc g);
}

module _ (i : ℕ) (a : Analysis) (room : i < length a.pool.storage) (small : i < max_nodes)
    (new : is_visited i a.node_map ≡ false) (left : IsDone a (node_at a.pool i).left)
    (right : IsDone a (node_at a.pool i).right) (inv : IsArranged a) where
  abbrev b : Analysis
  b = finish i a

  abbrev same_kind : (j : ℕ) → (node_at b.pool j).kind ≡ (node_at a.pool j).kind
  same_kind j = let (l, r, c, k, n, v) = (finish-Extends i a room).links j in k

  grown : Grown a.arithmetic_nodes b.arithmetic_nodes i
  grown = rw (finish-arithmetic i a) (if-Grown (is_arithmetic (node_at a.pool i).kind) _ i)

  carried_before :
      (j : ℕ)
      → is_carried (node_at b.pool j).kind ≡ true
      → is_carried (node_at a.pool j).kind ≡ true
  carried_before j t = ap is_carried (sym (same_kind j)) ∙ t

  visited_before : (j : ℕ) → i ≢ j → is_visited j b.node_map ≡ true → is_visited j a.node_map ≡ true
  visited_before j other v = ground (arith, sym (finish-visited i a j) ∙ v, other)

  -- The new node's operands were visited.
  used_done : (j : ℕ) → UsedBy a.pool i j → is_visited j a.node_map ≡ true
  used_done j (inl e) = rw e at left
  used_done j (inr e) = rw e at right

  used_before : (n j : ℕ) → UsedBy b.pool n j → UsedBy a.pool n j
  used_before n j (inl e) = inl (sym ((finish-Extends i a room).links n).0 ∙ e)
  used_before n j (inr e) = inr (sym ((finish-Extends i a room).links n).1 ∙ e)

  not_listed : (m : ℕ) → get_elem? a.arithmetic_nodes m ≢ some i
  not_listed m g = cc ((inv.seen m i g).0, new)

  sums_after :
      (j : ℕ)
      → is_visited j b.node_map ≡ true
      → is_carried (node_at b.pool j).kind ≡ true
      → (k : ℕ) × (get_elem? b.arithmetic_nodes k ≡ some j)
  sums_after j v t = elim (ℕ_discrete i j) [
    | yes here ↦
        let kind : is_arithmetic (node_at a.pool i).kind ≡ true =
          carried-arithmetic (node_at a.pool i).kind (rw here (carried_before j t)) in
        (
          length a.arithmetic_nodes,
          rw (finish-arithmetic i a) (
              if_added (is_arithmetic (node_at a.pool i).kind) a.arithmetic_nodes i kind
              ∙ ap some here),
        )
    | no there ↦
        let (k, g) = inv.sums j (visited_before j there v) (carried_before j t) in
        (k, grown.keeps k j g)
  ]

  constants_after :
      (j : ℕ)
      → is_visited j b.node_map ≡ true
      → (node_at b.pool j).kind ≡ const
      → (k : ℕ) × (get_elem? b.const_nodes k ≡ some j)
  unfolding is_const
  constants_after j v t = elim (ℕ_discrete i j) [
    | yes here ↦
        let kind : is_const (node_at a.pool i).kind ≡ true =
          ap (λ (n : ℕ). is_const (node_at a.pool n).kind) here
          ∙ ap is_const (sym (same_kind j) ∙ t) in
        (
          length a.const_nodes,
          rw (finish-const i a)
              (if_added (is_const (node_at a.pool i).kind) a.const_nodes i kind ∙ ap some here),
        )
    | no there ↦
        let (k, g) = inv.constants j (visited_before j there v) (sym (same_kind j) ∙ t) in
        (
          k,
          rw (finish-const i a)
              ((if-Grown (is_const (node_at a.pool i).kind) a.const_nodes i).keeps k j g),
        )
  ]

  results_after :
      (j : ℕ)
      → is_visited j b.node_map ≡ true
      → is_carried (node_at b.pool j).kind ≡ true
      → (node_at b.pool j).result_kind ≡ bitplane
  results_after j v t = finish-result i a room j ∙ (elim (ℕ_discrete i j) [
    | yes here ↦
        let first : (i == j) ≡ true = ground (arith, here) in
        rw first (carried-bitplane (node_at a.pool i).kind (rw here (carried_before j t)))
    | no there ↦
        let first : (i == j) ≡ false = ground (arith, there) in
        rw first (inv.results j (visited_before j there v) (carried_before j t))
  ])

  distinct_after :
      (m n j : ℕ)
      → get_elem? b.arithmetic_nodes m ≡ some j
      → get_elem? b.arithmetic_nodes n ≡ some j
      → m ≡ n
  distinct_after m n j f g = elim (grown.old_or_new m j f) [
    | inl old ↦ elim (grown.old_or_new n j g) [
      | inl old' ↦ inv.distinct m n j old old'
      | inr (last, same) ↦ absurd (not_listed m (old ∙ ap some same))
    ]
    | inr (last, same) ↦ elim (grown.old_or_new n j g) [
      | inl old' ↦ absurd (not_listed n (old' ∙ ap some same))
      | inr (last', same') ↦ last ∙ sym last'
    ]
  ]

  operands_after :
      (m n j : ℕ)
      → get_elem? b.arithmetic_nodes m ≡ some n
      → UsedBy b.pool n j
      → is_carried (node_at b.pool j).kind ≡ true
      → (k : ℕ) × (k < m) × (get_elem? b.arithmetic_nodes k ≡ some j)
  operands_after m n j g u t = elim (grown.old_or_new m n g) [
    | inl old ↦
        let (k, below, f) = inv.operands m n j old (used_before n j u) (carried_before j t) in
        (k, below, grown.keeps k j f)
    | inr (last, same) ↦
        let used : UsedBy a.pool i j = rw (sym same) (used_before n j u) in
        let (k, f) = inv.sums j (used_done j used) (carried_before j t) in
        (k, omega (arith, last, get_elem?-lt a.arithmetic_nodes k j f), grown.keeps k j f)
  ]

  seen_after :
      (m j : ℕ)
      → get_elem? b.arithmetic_nodes m ≡ some j
      → (is_visited j b.node_map ≡ true) × (j < max_nodes)
  seen_after m j g = elim (grown.old_or_new m j g) [
    | inl old ↦
        let (v, bound) = inv.seen m j old in (finish-visited i a j ∙ ground (arith, v), bound)
    | inr (last, same) ↦ (finish-visited i a j ∙ ground (arith, same), omega (arith, same, small))
  ]

pub finish-IsArranged : Kept IsArranged
finish-IsArranged i a room small new left right inv = record {
  sums = sums_after i a room small new left right inv;
  constants = constants_after i a room small new left right inv;
  results = results_after i a room small new left right inv;
  seen = seen_after i a room small new left right inv;
  distinct = distinct_after i a room small new left right inv;
  operands = operands_after i a room small new left right inv;
}
