-- ===== src/Jit/Analyzer/Arithmetic.antt =====
-- The analyzer's lists of constants and of arithmetic: each node once, operands first.
use apex_engine.Common.{
  ℕ, ◌<◌, ◌≡◌, refl, sym, ◌∙◌, ap, arith, Bool, true, false, [], ◌∷◌, ◌++◌, length, get_or-set_self,
  get_or-set_ne, ℕ_discrete, if◌then◌else◌, ◌==◌,
}
use apex_engine.Ir.{
  Node, NodePool, NodeKind, ResultKind, bitplane, bitmask, node_at, fresh_node, load, const, add,
  sub, lsl, lsr,
}
use apex_engine.Jit.Analyzer.{Analysis, mark, categorize, finish}
use apex_engine.Jit.Expression.{is_carried}

unfoldable pub is_arithmetic : NodeKind → Bool
is_arithmetic add = true
is_arithmetic sub = true
is_arithmetic lsl = true
is_arithmetic lsr = true
is_arithmetic kind = false

unfoldable pub is_const : NodeKind → Bool
is_const const = true
is_const kind = false

pub carried-arithmetic : (kind : NodeKind) → is_carried kind ≡ true → is_arithmetic kind ≡ true
unfolding is_carried is_arithmetic
carried-arithmetic add h = refl
carried-arithmetic sub h = refl
carried-arithmetic kind h = absurd (cc h)

categorize-arithmetic :
    (i : ℕ) (kind : NodeKind) (a : Analysis)
    → (categorize i kind a).arithmetic_nodes
      ≡ (if is_arithmetic kind then a.arithmetic_nodes ++ i ∷ [] else a.arithmetic_nodes)
unfolding categorize is_arithmetic
categorize-arithmetic i add a = refl
categorize-arithmetic i sub a = refl
categorize-arithmetic i lsl a = refl
categorize-arithmetic i lsr a = refl
categorize-arithmetic i kind a = refl

categorize-const :
    (i : ℕ) (kind : NodeKind) (a : Analysis)
    → (categorize i kind a).const_nodes
      ≡ (if is_const kind then a.const_nodes ++ i ∷ [] else a.const_nodes)
unfolding categorize is_const
categorize-const i const a = refl
categorize-const i kind a = refl

-- The kind of result that a node gets.
pub result_of : NodeKind → ResultKind
result_of load = bitplane
result_of const = bitplane
result_of add = bitplane
result_of sub = bitplane
result_of lsl = bitplane
result_of lsr = bitplane
result_of kind = bitmask

categorize-mark :
    (i : ℕ) (kind : NodeKind) (a : Analysis)
    → (categorize i kind a).pool ≡ mark i (result_of kind) a.pool
unfolding categorize result_of
categorize-mark i load a = refl
categorize-mark i const a = refl
categorize-mark i add a = refl
categorize-mark i sub a = refl
categorize-mark i lsl a = refl
categorize-mark i lsr a = refl
categorize-mark i kind a = refl

pub carried-bitplane : (kind : NodeKind) → is_carried kind ≡ true → result_of kind ≡ bitplane
unfolding is_carried result_of
carried-bitplane add h = refl
carried-bitplane sub h = refl
carried-bitplane kind h = absurd (cc h)

module _ (i : ℕ) (a : Analysis) where
  pub finish-arithmetic : (finish i a).arithmetic_nodes ≡ (
      if is_arithmetic (node_at a.pool i).kind
      then a.arithmetic_nodes ++ i ∷ []
      else a.arithmetic_nodes)
  unfolding finish
  finish-arithmetic =
      categorize-arithmetic i (node_at a.pool i).kind
        (record a { all_nodes = a.all_nodes ++ i ∷ [] })

  pub finish-const :
      (finish i a).const_nodes
      ≡ (if is_const (node_at a.pool i).kind then a.const_nodes ++ i ∷ [] else a.const_nodes)
  unfolding finish
  finish-const =
      categorize-const i (node_at a.pool i).kind (record a { all_nodes = a.all_nodes ++ i ∷ [] })

  finish-mark : (finish i a).pool ≡ mark i (result_of (node_at a.pool i).kind) a.pool
  unfolding finish
  finish-mark =
      categorize-mark i (node_at a.pool i).kind (record a { all_nodes = a.all_nodes ++ i ∷ [] })

  -- What kind of result the nodes have.
  pub finish-result :
      i < length a.pool.storage
      → (j : ℕ)
      → (node_at (finish i a).pool j).result_kind
        ≡ (if i == j then result_of (node_at a.pool i).kind else (node_at a.pool j).result_kind)
  unfolding mark
  finish-result h j =
      let kind = result_of (node_at a.pool i).kind in
      let n = record (node_at a.pool i) { result_kind = kind } in
      ap (λ (p : NodePool). (node_at p j).result_kind) finish-mark ∙ (elim (ℕ_discrete i j) [
        | yes here ↦
            ap (λ (k : ℕ). (node_at (mark i kind a.pool) k).result_kind) (sym here)
            ∙ ap (λ (m : Node). m.result_kind) (get_or-set_self a.pool.storage i n fresh_node h)
            ∙ ground (arith, here)
        | no there ↦
            ap (λ (m : Node). m.result_kind) (get_or-set_ne a.pool.storage i j n fresh_node there)
            ∙ ground (arith, there)
      ])
