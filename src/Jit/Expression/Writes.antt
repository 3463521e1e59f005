-- ===== src/Jit/Expression/Writes.antt =====
-- What the compilers leave of each node: its links, and more.
use apex_engine.Common.{
  ℕ, ◌+◌, ◌≡◌, refl, ℤ, pos, Bool, true, false, List, [], ◌∷◌, Option, none, some, Map, leb, length,
  find, if◌then◌else◌, Bool-cases, Option-cases, inl, inr,
}
use apex_engine.Arm64.{ExprKernelFunc, JitRuntime}
use apex_engine.Ir.{Node, NodePool, node_at, max_nodes}
use apex_engine.Jit.Analyzer.{Analysis}
use apex_engine.Ir.Links.{
  links_of, SamePart, SameLinks, SamePart-refl, SamePart-trans, write-SamePart,
}
use apex_engine.Jit.Scratchpad.{ScratchpadManager, alloc_slot, new_scratchpad}
use apex_engine.Jit.ConstPool.{ConstPool}
use apex_engine.Jit.Emit.{c_string, number_field, index_of, set_field_idx, assign_fields}
use apex_engine.Jit.Expression.{is_slot, is_carried, collect_comparisons, expression_code}
use apex_engine.Jit.Expression.Compile.{
  number_fields, create_planes, assign_slots, assign_carries, set_slot_id, set_carry_reg,
  compile_analyzed,
}

module _ {A : Type 0} (part : Node → A) where
  -- A part that does not include the number of the field.
  module _ (same : (n : Node) (x : ℤ) → part (record n { field_idx = x }) ≡ part n) where
    pub set_field_idx-SamePart :
        (i : ℕ) (x : ℤ) (p : NodePool) → SamePart part p (set_field_idx i x p)
    unfolding set_field_idx
    set_field_idx-SamePart i x p =
        write-SamePart i (record (node_at p i) { field_idx = x }) p (same (node_at p i) x)

    pub assign_fields-SamePart :
        (nodes : List ℕ) (m : Map ℕ) (p : NodePool) → SamePart part p (assign_fields nodes m p)
    unfolding assign_fields
    assign_fields-SamePart [] m p = SamePart-refl p
    assign_fields-SamePart (i ∷ nodes) m p =
        SamePart-trans (set_field_idx-SamePart i _ p) (assign_fields-SamePart nodes _ _)

    pub create_planes-SamePart :
        (fresh : ℕ → ℕ) (nodes : List ℕ) (constants : List (ℕ × ℕ)) (p : NodePool)
        (pools : ConstPool)
        → SamePart part p (create_planes fresh nodes constants p pools).1
    unfolding create_planes
    create_planes-SamePart fresh [] constants p pools = SamePart-refl p
    create_planes-SamePart fresh (i ∷ nodes) constants p pools =
        SamePart-trans (set_field_idx-SamePart i _ p) (create_planes-SamePart fresh nodes _ _ _)

    pub number_fields-SamePart :
        (nodes : List ℕ) (m : Map ℕ) (p : NodePool) → SamePart part p (number_fields nodes m p).1
    unfolding number_fields
    number_fields-SamePart [] m p = SamePart-refl p
    number_fields-SamePart (i ∷ nodes) m p =
        let name = c_string (node_at p i).field_name in
        let m' = number_field name m in
        let idx = index_of name m' in
        let rest : SamePart part p (number_fields nodes m' (set_field_idx i idx p)).1 =
          SamePart-trans (set_field_idx-SamePart i idx p)
            (number_fields-SamePart nodes m' (set_field_idx i idx p)) in
        elim (Option-cases (find name m)) [
          | inr (k, e) ↦ rw (number_fields, e) rest
          | inl e ↦ elim (Bool-cases (leb 8 (length m))) [
            | inl full ↦ rw (number_fields, e, full) (SamePart-refl p)
            | inr room ↦ rw (number_fields, e, room) rest
          ]
        ]

  -- One that does not include the slot.
  module _ (same : (n : Node) (x : ℤ) → part (record n { slot_id = x }) ≡ part n) where
    pub set_slot_id-SamePart : (i : ℕ) (x : ℤ) (p : NodePool) → SamePart part p (set_slot_id i x p)
    unfolding set_slot_id
    set_slot_id-SamePart i x p =
        write-SamePart i (record (node_at p i) { slot_id = x }) p (same (node_at p i) x)

    pub assign_slots-SamePart :
        (nodes : List ℕ) (used : ScratchpadManager) (p : NodePool)
        → SamePart part p (assign_slots nodes used p).1
    unfolding assign_slots
    assign_slots-SamePart [] used p = SamePart-refl p
    assign_slots-SamePart (i ∷ nodes) used p =
        let given = alloc_slot used in
        let one = set_slot_id-SamePart i given.0 p in
        elim (Bool-cases (is_slot given.0)) [
          | inl slot ↦
              rw (assign_slots, slot)
                (SamePart-trans one (assign_slots-SamePart nodes given.1 (set_slot_id i given.0 p)))
          | inr full ↦ rw (assign_slots, full) one
        ]

  -- One that does not include the carry.
  module _ (same : (n : Node) (x : ℤ) → part (record n { carry_reg = x }) ≡ part n) where
    pub set_carry_reg-SamePart :
        (i : ℕ) (x : ℤ) (p : NodePool) → SamePart part p (set_carry_reg i x p)
    unfolding set_carry_reg
    set_carry_reg-SamePart i x p =
        write-SamePart i (record (node_at p i) { carry_reg = x }) p (same (node_at p i) x)

    pub assign_carries-SamePart :
        (nodes : List ℕ) (k : ℕ) (p : NodePool) → SamePart part p (assign_carries nodes k p).1
    unfolding assign_carries
    assign_carries-SamePart [] k p = SamePart-refl p
    assign_carries-SamePart (i ∷ nodes) k p = elim (Bool-cases (is_carried (node_at p i).kind)) [
      | inr other ↦ rw (assign_carries, other) (assign_carries-SamePart nodes k p)
      | inl carried ↦ elim (Bool-cases (leb 8 k)) [
        | inl full ↦ rw (assign_carries, carried, full) (SamePart-refl p)
        | inr room ↦
            rw (assign_carries, carried, room)
              (SamePart-trans (set_carry_reg-SamePart i (pos k) p)
                (assign_carries-SamePart nodes (k + 1) (set_carry_reg i (pos k) p)))
      ]
    ]

-- Each of the early returns gives one of three pools.
picked_pool :
    (P : NodePool → Type 0) (fields slots carries : Bool) (r : Option ExprKernelFunc)
    (p1 p3 p4 : NodePool) (c c' : ConstPool)
    → P p1
    → P p3
    → P p4
    → let given : Option ExprKernelFunc × NodePool × ConstPool =
        if fields
        then (if slots then (if carries then (r, p4, c') else (none, p4, c')) else (none, p3, c'))
        else (none, p1, c) in
      P given.1
picked_pool P true true true r p1 p3 p4 c c' h1 h3 h4 = h4
picked_pool P true true false r p1 p3 p4 c c' h1 h3 h4 = h4
picked_pool P true false carries r p1 p3 p4 c c' h1 h3 h4 = h3
picked_pool P false slots carries r p1 p3 p4 c c' h1 h3 h4 = h1

pub compile_analyzed-SameLinks :
    (rt : JitRuntime) (fresh : ℕ → ℕ) (root : ℕ) (a : Analysis) (pools : ConstPool)
    → SameLinks a.pool (compile_analyzed rt fresh root a pools).1
unfolding compile_analyzed
compile_analyzed-SameLinks rt fresh root a pools =
    let nodes = a.arithmetic_nodes in
    let (few_fields, p1) = number_fields a.load_nodes [] a.pool in
    let (constants, p2, pools') = create_planes fresh a.const_nodes [] p1 pools in
    let (few_slots, p3) = assign_slots nodes new_scratchpad p2 in
    let (few_carries, p4) = assign_carries nodes 0 p3 in
    let code = expression_code constants p4 nodes (collect_comparisons max_nodes p4 (some root)) in
    let s1 = number_fields-SamePart links_of (λ n x. refl) a.load_nodes [] a.pool in
    let s2 =
      SamePart-trans s1
        (create_planes-SamePart links_of (λ n x. refl) fresh a.const_nodes [] p1 pools) in
    let s3 =
      SamePart-trans s2 (assign_slots-SamePart links_of (λ n x. refl) nodes new_scratchpad p2) in
    let s4 = SamePart-trans s3 (assign_carries-SamePart links_of (λ n x. refl) nodes 0 p3) in
    picked_pool (SameLinks a.pool) few_fields few_slots few_carries (rt.add_expr code) p1 p3 p4
      pools pools' s1 s3 s4

pub assign_fields-SameLinks :
    (nodes : List ℕ) (m : Map ℕ) (p : NodePool) → SameLinks p (assign_fields nodes m p)
assign_fields-SameLinks nodes m p = assign_fields-SamePart links_of (λ n x. refl) nodes m p
