-- ===== src/Jit/Scalar/Kernel.antt =====
-- `compile_scalar_expression` and its kernel together.
use mathlib.Core.Path.{subst}
use apex_engine.Common.{
  ℕ, suc, ◌+◌, ◌*◌, ◌<◌, ◌≤◌, ◌≡◌, refl, sym, ◌∙◌, ap, arith, ℤ, List, [], ◌∷◌, ◌++◌, Option, none,
  some, length, get_elem?, ◌==◌, Name, Map,
}
use apex_engine.Word.{two64, test_bit}
use apex_engine.Word.Count.{count_below-le}
use apex_engine.Arm64.{Cpu, JitRuntime, go}
use apex_engine.Ir.{Node, NodePool, NodeKind, Pointer, node_at, max_nodes, load}
use apex_engine.Ir.Acyclic.{IsAcyclic}
use apex_engine.Ir.Links.{set-keeps}
use apex_engine.Jit.Analyzer.{Analysis, is_visited, analyze}
use apex_engine.Jit.Analyzer.Steps.{SameTree}
use apex_engine.Jit.Analyzer.Total.{new_analysis, analyze-Ended, new-IsClosed}
use apex_engine.Jit.Emit.{to_u64, c_string, number_field, index_of, set_field_idx, assign_fields}
use apex_engine.Jit.Scalar.{scalar_code, compile_scalar_expression}
use apex_engine.Jit.Scalar.Value.{Value, loaded, constant, binary, operation}
use apex_engine.Jit.Scalar.Row.{FieldAt}
use apex_engine.Jit.Scalar.Whole.{Ordered, last_of}
use apex_engine.Jit.Scalar.Loop.{Input}
use apex_engine.Jit.Scalar.Correct.{HasStack, entered, Restores, scalar_code-evaluates}
use apex_engine.Jit.Scalar.Listed.{IsListed, unvisited, finish-IsListed, Ordered-congr}

abbrev Tree : Type 0
Tree = Pointer × Pointer × Pointer × NodeKind × List ℕ × ℤ

abbrev tree_of : Node → Tree
tree_of n = (n.left, n.right, n.cond, n.kind, n.field_name, n.const_value)

assign_fields-tree :
    (nodes : List ℕ) (m : Map ℕ) (p : NodePool) (j : ℕ)
    → tree_of (node_at (assign_fields nodes m p) j) ≡ tree_of (node_at p j)
unfolding assign_fields set_field_idx
assign_fields-tree [] m p j = refl
assign_fields-tree (i ∷ nodes) m p j =
    let m' = number_field (c_string (node_at p i).field_name) m in
    let idx = index_of (c_string (node_at p i).field_name) m' in
    assign_fields-tree nodes m' (set_field_idx i idx p) j
    ∙ set-keeps tree_of p.storage i j (record (node_at p i) { field_idx = idx }) refl

assign_fields-SameTree :
    (nodes : List ℕ) (m : Map ℕ) (p : NodePool) (j : ℕ)
    → SameTree (node_at p j) (node_at (assign_fields nodes m p) j)
assign_fields-SameTree nodes m p j =
    let e = assign_fields-tree nodes m p j in
    (
      ap (λ (t : Tree). t.0) e,
      ap (λ (t : Tree). t.1) e,
      ap (λ (t : Tree). t.2) e,
      ap (λ (t : Tree). t.3) e,
      ap (λ (t : Tree). t.4) e,
      ap (λ (t : Tree). t.5) e,
    )

-- The meaning of an expression depends on no other part of the nodes.
pub Value-SameTree :
    {p q : NodePool} {field : Name → ℕ} {i v : ℕ}
    → ((j : ℕ) → SameTree (node_at p j) (node_at q j))
    → Value p field i v
    → Value q field i v
Value-SameTree {p} {q} {field} {i} same (loaded h) =
    let (l, r, c, k, n, w) = same i in
    let value : Value q field i (field (c_string (node_at q i).field_name)) = loaded (k ∙ h) in
    rw n at value
Value-SameTree {p} {q} {field} {i} same (constant h) =
    let (l, r, c, k, n, w) = same i in
    let value : Value q field i (to_u64 (node_at q i).const_value) = constant (k ∙ h) in
    rw w at value
Value-SameTree {p} {q} {field} {i} same (binary {x} {y} a b va vb h) =
    let (l, r, c, k, n, w) = same i in
    binary (l ∙ a) (r ∙ b) (Value-SameTree same va) (Value-SameTree same vb)
      (ap (λ (kind : NodeKind). operation kind x y) k ∙ h)

last_of-snoc : (i : ℕ) (xs : List ℕ) (root : ℕ) → last_of i (xs ++ root ∷ []) ≡ root
last_of-snoc i [] root = refl
last_of-snoc i (x ∷ xs) root = last_of-snoc x xs root

-- A list that ends with `root`, by its head.
split_snoc :
    (xs : List ℕ) (root : ℕ)
    → (i : ℕ) × (rest : List ℕ) × (xs ++ root ∷ [] ≡ i ∷ rest) × (last_of i rest ≡ root)
split_snoc [] root = (root, [], refl, refl)
split_snoc (x ∷ xs) root = (x, xs ++ root ∷ [], refl, last_of-snoc x xs root)

pub new-IsListed : (p : NodePool) → IsListed (new_analysis p)
unfolding is_visited
new-IsListed p = record {
  listed = λ j done. absurd (cc done);
  ordered = omega arith;
  bounded = omega (arith, count_below-le max_nodes (unvisited (new_analysis p)));
}

abbrev result_of : Analysis → Option Analysis → Analysis
result_of d none = d
result_of d (some a) = a

-- The nodes that an analysis lists: operands first, the root last, and at most as many as the pool has.
record Listing (p : NodePool) (root : ℕ) (a : Analysis) : Type 0 where
  first : ℕ
  rest : List ℕ
  nodes : a.all_nodes ≡ first ∷ rest
  last : last_of first rest ≡ root
  ordered : Ordered a.pool [] (first ∷ rest)
  bounded : suc (length rest) ≤ max_nodes
  same : (j : ℕ) → SameTree (node_at p j) (node_at a.pool j)

analyze-Listing :
    (p : NodePool) (root : ℕ) (a : Analysis)
    → IsAcyclic p
    → root < max_nodes
    → analyze max_nodes (some root) (new_analysis p) ≡ some a
    → Listing p root a
unfolding is_visited
analyze-Listing p root a ok h e =
    let ended =
      analyze-Ended IsListed finish-IsListed max_nodes (some root) (new_analysis p) (omega arith) h
        ok (new-IsClosed p) (new-IsListed p) in
    let b = ended.result in
    let is_a : b ≡ a = ap (result_of b) (sym ended.ends ∙ e) in
    let (xs, all) = ended.marks.1 refl in
    let (i, rest, split, last) = split_snoc xs root in
    let listed = ended.invariant in
    let nodes : b.all_nodes ≡ i ∷ rest = all ∙ split in
    let bound : length (i ∷ rest) ≤ max_nodes = omega (arith, ap length nodes, listed.bounded) in
    let in_order = listed.ordered in
    let ordered = rw nodes at in_order in
    let listing : Listing p root b = record {
      first = i;
      rest = rest;
      nodes = nodes;
      last = last;
      ordered = ordered;
      bounded = bound;
      same = ended.extends.links;
    } in
    rw is_a at listing

-- The code for the nodes of a listing.
listed-evaluates :
    (p : NodePool) (root : ℕ) (a : Analysis) (field : ℕ → Name → ℕ) (flags : ℕ → ℕ) (c : Cpu)
    → Listing p root a
    → let q = assign_fields a.load_nodes [] a.pool in
      HasStack max_nodes c
      → c.reg 1 + 8 * max_nodes ≤ two64
      → ((r j m : ℕ)
          → r < 64
          → get_elem? a.all_nodes m ≡ some j
          → (node_at q j).kind ≡ load
          → FieldAt q (entered max_nodes c) r (field r) j)
      → ((r : ℕ) → r < 64 → Value p (field r) root (flags r))
      → ((r : ℕ) → r < 64 → flags r ≤ 1)
      → (k : ℕ) → k < 64
      → (fuel : ℕ) × (d : Cpu) × (go fuel (scalar_code q a.all_nodes) (scalar_code q a.all_nodes) c
          ≡ some d)
        × (test_bit (d.reg 0) k ≡ (flags k == 1))
        × Restores c d
listed-evaluates p root a field flags c l stack room fields values small k hk =
    let q = assign_fields a.load_nodes [] a.pool in
    let written = assign_fields-SameTree a.load_nodes [] a.pool in
    let input : Input q (entered max_nodes c) field flags l.first l.rest = record {
      room = room;
      fit = l.bounded;
      ordered = Ordered-congr a.pool q [] (l.first ∷ l.rest) written l.ordered;
      fields = λ r m j hr g. fields r j m hr (rw l.nodes g);
      values = λ r hr.
          let before : Value a.pool (field r) root (flags r) =
            Value-SameTree {p = p} l.same (values r hr) in
          let after : Value q (field r) root (flags r) =
            Value-SameTree {p = a.pool} written before in
          subst (λ (n : ℕ). Value q (field r) n (flags r)) (sym l.last) after;
      small = small;
    } in
    let (fuel, d, stopped, mask, restored) =
      scalar_code-evaluates q l.first l.rest field flags max_nodes c stack input k hk in
    (fuel, d, rw l.nodes stopped, mask, restored)

-- `compile_scalar_expression` and what it makes, end to end: on a pool without cycles it hands code to
-- the runtime, for the pool `q` in which the fields are numbered. Let the expression, as it stands in
-- the pool before the compilation, have on each of the 64 rows a `Value` that is 0 or 1: then it is made
-- of fields, constants, `ADD`, `SUB`, `GT`, `LT`, `EQ`, `AND` and `OR`, with a truth value at the root.
-- Called on the fields' arrays and a scratchpad of a word for each node of the pool, with room for two
-- frames on the stack, the code returns a mask whose bit `k` says whether that value is 1 on row `k`, and
-- restores the callee-saved registers 19, 20, 29 and 30 and the stack pointer. Expressions with `NOT`, `SELECT`, `LSL` or `LSR` have no `Value`, and
-- nothing is said of them.
pub compile_scalar_expression-evaluates :
    (rt : JitRuntime) (p : NodePool) (root : ℕ) (a : Analysis) (field : ℕ → Name → ℕ)
    (flags : ℕ → ℕ) (c : Cpu)
    → IsAcyclic p
    → root < max_nodes
    → analyze max_nodes (some root) (new_analysis p) ≡ some a
    → let q = assign_fields a.load_nodes [] a.pool in
      HasStack max_nodes c
      → c.reg 1 + 8 * max_nodes ≤ two64
      → ((r j m : ℕ)
          → r < 64
          → get_elem? a.all_nodes m ≡ some j
          → (node_at q j).kind ≡ load
          → FieldAt q (entered max_nodes c) r (field r) j)
      → ((r : ℕ) → r < 64 → Value p (field r) root (flags r))
      → ((r : ℕ) → r < 64 → flags r ≤ 1)
      → (k : ℕ) → k < 64
      → (compile_scalar_expression rt (some root) p
          ≡ some (rt.add_expr (scalar_code q a.all_nodes), q))
        × (fuel : ℕ) × (d : Cpu) × (go fuel
              (scalar_code q a.all_nodes)
              (scalar_code q a.all_nodes)
              c
            ≡ some d)
        × (test_bit (d.reg 0) k ≡ (flags k == 1))
        × Restores c d
unfolding compile_scalar_expression
compile_scalar_expression-evaluates rt p root a field flags c ok h e stack room fields values small
      k hk =
    let (fuel, d, stopped, mask, restored) =
      listed-evaluates p root a field flags c (analyze-Listing p root a ok h e) stack room fields
        values small k hk in
    (rw (compile_scalar_expression, e) refl, fuel, d, stopped, mask, restored)
