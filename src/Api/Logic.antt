-- ===== src/Api/Logic.antt =====
-- What the expressions that the C interface offers for tests mean.
use apex_engine.Common.{
  ℕ, ◌+◌, ◌<◌, ◌≤◌, ◌≡◌, refl, ◌∙◌, ap, arith, pos, List, [], ◌∷◌, some, length, set, replicate,
  ltb, Name, get_or-set_self, get_or-set_ne, length-set,
}
use apex_engine.Word.{add64}
use apex_engine.Ir.{
  Node, NodePool, node_at, max_nodes, as_load, strncpy, add_node, gt_node, const_node, build, add,
  gt, const, fresh_node, bitplane, bitmask,
}
use apex_engine.Ir.Acyclic.{build_room, load_room}
use apex_engine.Jit.Emit.{c_string, to_u64}
use apex_engine.Jit.Scalar.Value.{Value, loaded, constant, binary, flag, operation}
use apex_engine.Api.{apex_create_universal_test_logic, apex_create_simple_logic, field_literal}

-- A node pool with a node more.
abbrev pushed : NodePool → Node → NodePool
pushed p n = record { storage = set p.storage p.next_idx n; next_idx = p.next_idx + 1 }

abbrev copied : ℕ → List ℕ
copied k = 70 ∷ 105 ∷ 101 ∷ 108 ∷ 100 ∷ (48 + k) ∷ replicate 57 0

-- "Field" and a digit
abbrev pub field_name : ℕ → Name
field_name k = 70 ∷ 105 ∷ 101 ∷ 108 ∷ 100 ∷ (48 + k) ∷ []

at_new :
    (p : NodePool) (n : Node) → p.next_idx < length p.storage → node_at (pushed p n) p.next_idx ≡ n
at_new p n room = get_or-set_self p.storage p.next_idx n fresh_node room

at_old : (p : NodePool) (n : Node) (i : ℕ) → i < p.next_idx → node_at (pushed p n) i ≡ node_at p i
at_old p n i old =
    get_or-set_ne p.storage p.next_idx i n fresh_node (λ e. absurd (omega (arith, old, e)))

-- Room in a pool for `k` nodes.
abbrev HasRoom : ℕ → NodePool → Type 0
HasRoom k p = (p.next_idx + k ≤ max_nodes) × (length p.storage ≡ max_nodes)

-- An assignment to a fresh node, in front of one that is there.
built :
    (assign : Node → Node) (k : ℕ) (p : NodePool)
    → HasRoom (k + 1) p
    → (q : NodePool) × (build assign p ≡ (some p.next_idx, q))
      × HasRoom k q
      × (q.next_idx ≡ p.next_idx + 1)
      × (node_at q p.next_idx ≡ assign (node_at p p.next_idx))
      × ((i : ℕ) → i < p.next_idx → node_at q i ≡ node_at p i)
built assign k p (room, size) =
    let n = assign (node_at p p.next_idx) in
    (
      pushed p n,
      build_room assign p (omega (arith, room)),
      (omega (arith, room), length-set p.storage p.next_idx n ∙ size),
      refl,
      at_new p n (omega (arith, room, size)),
      at_old p n,
    )

-- A node that `load_node` has made for field `k`.
loaded_at :
    (k i : ℕ) (p q : NodePool) (m : ℕ)
    → node_at q i ≡ as_load (copied k) (node_at p m)
    → c_string (as_load (copied k) (node_at p m)).field_name ≡ field_name k
    → (field : Name → ℕ) → Value q field i (field (field_name k))
loaded_at k i p q m e name field =
    let w : Value q field i (field (c_string (node_at q i).field_name)) =
      loaded (ap (λ (n : Node). n.kind) e) in
    let same = ap (λ (n : Node). c_string n.field_name) e ∙ name in rw same at w

-- `Field0 + Field1 > Field2`, in any pool with room for the five nodes, whatever they were used for
-- before.
pub universal_logic-Value :
    (p : NodePool)
    → p.next_idx + 5 ≤ max_nodes
    → length p.storage ≡ max_nodes
    → (root : ℕ) × (q : NodePool) × (apex_create_universal_test_logic p ≡ some (some root, q))
      × ((field : Name → ℕ)
          → Value q field root (
              flag
                (ltb (field (field_name 2)) (add64 (field (field_name 0)) (field (field_name 1))))))
unfolding c_string apex_create_universal_test_logic add_node gt_node strncpy
universal_logic-Value p room size =
    let (p0, b0, h0, n0, at0, keep0) = built (as_load (copied 0)) 4 p (room, size) in
    let (p1, b1, h1, n1, at1, keep1) = built (as_load (copied 1)) 3 p0 h0 in
    let assign2 = λ (n : Node). record n {
      kind = add;
      result_kind = bitplane;
      left = some p.next_idx;
      right = some p0.next_idx;
    } in
    let (p2, b2, h2, n2, at2, keep2) = built assign2 2 p1 h1 in
    let (p3, b3, h3, n3, at3, keep3) = built (as_load (copied 2)) 1 p2 h2 in
    let assign4 = λ (n : Node). record n {
      kind = gt;
      result_kind = bitmask;
      left = some p1.next_idx;
      right = some p2.next_idx;
    } in
    let (p4, b4, h4, n4, at4, keep4) = built assign4 0 p3 h3 in
    let call : apex_create_universal_test_logic p ≡ some (some p3.next_idx, p4) =
      rw
        (
          load_room (field_literal 0) (copied 0) p refl (omega (arith, room)),
          b0,
          load_room (field_literal 1) (copied 1) p0 refl (omega (arith, h0.0)),
          b1,
          b2,
          load_room (field_literal 2) (copied 2) p2 refl (omega (arith, h2.0)),
          b3,
          b4,
        )
        refl in
    let e0 =
      keep4 p.next_idx (omega (arith, n0, n1, n2, n3))
      ∙ keep3 p.next_idx (omega (arith, n0, n1, n2))
      ∙ keep2 p.next_idx (omega (arith, n0, n1))
      ∙ keep1 p.next_idx (omega (arith, n0))
      ∙ at0 in
    let e1 =
      keep4 p0.next_idx (omega (arith, n1, n2, n3))
      ∙ keep3 p0.next_idx (omega (arith, n1, n2))
      ∙ keep2 p0.next_idx (omega (arith, n1))
      ∙ at1 in
    let e2 =
      keep4 p1.next_idx (omega (arith, n2, n3)) ∙ keep3 p1.next_idx (omega (arith, n2)) ∙ at2 in
    let e3 = keep4 p2.next_idx (omega (arith, n3)) ∙ at3 in
    (
      p3.next_idx,
      p4,
      call,
      λ field.
          let v0 = loaded_at 0 p.next_idx p p4 p.next_idx e0 refl field in
          let v1 = loaded_at 1 p0.next_idx p0 p4 p0.next_idx e1 refl field in
          let v2 = loaded_at 2 p2.next_idx p2 p4 p2.next_idx e3 refl field in
          let x = field (field_name 0) in
          let y = field (field_name 1) in
          let sum =
            binary {v = add64 x y} (ap (λ (n : Node). n.left) e2) (ap (λ (n : Node). n.right) e2) v0
              v1 (ap (λ (n : Node). operation n.kind x y) e2) in
          binary (ap (λ (n : Node). n.left) at4) (ap (λ (n : Node). n.right) at4) sum v2
            (ap (λ (n : Node). operation n.kind (add64 x y) (field (field_name 2))) at4),
    )

-- `Field0 > 10`, in any pool with room for the three nodes, whatever they were used for before.
pub simple_logic-Value :
    (p : NodePool)
    → p.next_idx + 3 ≤ max_nodes
    → length p.storage ≡ max_nodes
    → (root : ℕ) × (q : NodePool) × (apex_create_simple_logic p ≡ some (some root, q))
      × ((field : Name → ℕ) → Value q field root (flag (ltb 10 (field (field_name 0)))))
unfolding c_string apex_create_simple_logic const_node gt_node strncpy to_u64
simple_logic-Value p room size =
    let (p0, b0, h0, n0, at0, keep0) = built (as_load (copied 0)) 2 p (room, size) in
    let assign1 =
      λ (n : Node). record n { kind = const; result_kind = bitplane; const_value = pos 10 } in
    let (p1, b1, h1, n1, at1, keep1) = built assign1 1 p0 h0 in
    let assign2 = λ (n : Node). record n {
      kind = gt;
      result_kind = bitmask;
      left = some p.next_idx;
      right = some p0.next_idx;
    } in
    let (p2, b2, h2, n2, at2, keep2) = built assign2 0 p1 h1 in
    let call : apex_create_simple_logic p ≡ some (some p1.next_idx, p2) =
      rw (load_room (field_literal 0) (copied 0) p refl (omega (arith, room)), b0, b1, b2) refl in
    let e0 =
      keep2 p.next_idx (omega (arith, n0, n1)) ∙ keep1 p.next_idx (omega (arith, n0)) ∙ at0 in
    let e1 = keep2 p0.next_idx (omega (arith, n1)) ∙ at1 in
    (
      p1.next_idx,
      p2,
      call,
      λ field.
          let v0 = loaded_at 0 p.next_idx p p2 p.next_idx e0 refl field in
          let c : Value p2 field p0.next_idx (to_u64 (node_at p2 p0.next_idx).const_value) =
            constant (ap (λ (n : Node). n.kind) e1) in
          let same : to_u64 (node_at p2 p0.next_idx).const_value ≡ 10 =
            ap (λ (n : Node). to_u64 n.const_value) e1 in
          let v1 = rw same at c in
          binary (ap (λ (n : Node). n.left) at2) (ap (λ (n : Node). n.right) at2) v0 v1
            (ap (λ (n : Node). operation n.kind (field (field_name 0)) 10) at2),
    )
