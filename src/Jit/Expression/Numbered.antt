-- ===== src/Jit/Expression/Numbered.antt =====
-- The numbers that `compile_expression` gives are in order for its code.
use apex_engine.Common.{
  ℕ, zero, suc, ◌+◌, ◌*◌, ◌<◌, ◌≤◌, ◌≡◌, ◌≢◌, refl, sym, ◌∙◌, ap, arith, pos, true, List, [], ◌∷◌,
  ◌++◌, Bool-cases, none, some, length, get_elem?, inl, inr, dec_lt, Name,
}
use apex_engine.Word.{two64, IsU64}
use apex_engine.Ir.{Node, NodePool, Pointer, node_at, max_nodes, const}
use apex_engine.Ir.Links.{SamePart}
use apex_engine.Jit.Analyzer.{Analysis, is_visited}
use apex_engine.Jit.Analyzer.Steps.{IsDone}
use apex_engine.Jit.Emit.{to_u64}
use apex_engine.Jit.ConstPool.{ConstPool}
use apex_engine.Jit.ConstPool.Planes.{IsFilled}
use apex_engine.Jit.Scalar.Row.{Call}
use apex_engine.Jit.Scalar.Nodes.{get_elem?-lt}
use apex_engine.Jit.Expression.{
  is_carried, carry_register, planes_of, collect_comparisons, is_comparison, is_and,
}
use apex_engine.Jit.Expression.Writes.{number_fields-SamePart, assign_carries-SamePart}
use apex_engine.Jit.Expression.Operands.{HoldsPlanes, IsOperand}
use apex_engine.Jit.Expression.Steps.{IsNumbered, AreNumbered}
use apex_engine.Jit.Expression.Masks.{AreComparable}
use apex_engine.Jit.Expression.Nodes.{carry_register-pos}
use apex_engine.Jit.Expression.Numbers.{Distinct, InPool, assign_slots-order}
use apex_engine.Jit.Expression.Carries.{AreCarried, assign_carries-AreCarried}
use apex_engine.Jit.Expression.Constants.{
  const_of, create_planes-HasPlanesOf, create_planes-IsFilled, HoldsConstants, constant-HoldsPlanes,
}
use apex_engine.Jit.Expression.Final.{
  Core, core_of, fields_pool, created, created-SamePart, slots_pool, final_pool, slots-SamePart,
  final-SamePart, final-SameTree, final_comparisons,
}
use apex_engine.Jit.Expression.Analyzed.{
  IsAnalyzed, HoldsFields, field_planes, const_planes, only, get_elem?-append,
}

module _ (fresh : ℕ → ℕ) (a : Analysis) (pools : ConstPool) (ok : IsAnalyzed a)
    (filled : IsFilled pools) (few : length a.arithmetic_nodes ≤ 8) where
  abbrev nodes : List ℕ
  nodes = a.arithmetic_nodes

  abbrev q : NodePool
  q = final_pool fresh a pools

  abbrev constants : List (ℕ × ℕ)
  constants = (created fresh a pools).0

  same_kind : (j : ℕ) → (node_at q j).kind ≡ (node_at a.pool j).kind
  same_kind j = (final-SameTree fresh a pools j).3

  carried_before :
      (j : ℕ) → is_carried (node_at q j).kind ≡ true → is_carried (node_at a.pool j).kind ≡ true
  carried_before j t = ap is_carried (sym (same_kind j)) ∙ t

  inside : (p : NodePool) → SamePart core_of a.pool p → InPool p nodes
  inside p same m i g = omega (arith, same.size, ok.size, (ok.arranged.seen m i g).1)

  distinct : Distinct nodes
  distinct = ok.arranged.distinct

  -- The slots are numbered from 0 on.
  slot_of : (m i : ℕ) → get_elem? nodes m ≡ some i → (node_at q i).slot_id ≡ pos m
  slot_of m i g =
      let kept =
        assign_carries-SamePart (λ (n : Node). n.slot_id) (λ n x. refl) nodes 0
          (slots_pool fresh a pools) in
      let given =
        assign_slots-order 0 nodes (created fresh a pools).1 (omega (arith, few))
          (inside (created fresh a pools).1 (created-SamePart fresh a pools)) distinct m i g in
      kept.parts i ∙ given ∙ ap pos (omega arith)

  -- The carries are numbered.
  carries : AreCarried (slots_pool fresh a pools) q nodes 0
  carries =
      assign_carries-AreCarried 0 nodes (slots_pool fresh a pools) (omega (arith, few))
        (inside (slots_pool fresh a pools) (slots-SamePart fresh a pools)) distinct

  slots_kind : (j : ℕ) → (node_at (slots_pool fresh a pools) j).kind ≡ (node_at q j).kind
  slots_kind j = ap (λ (t : Core). t.3) ((slots-SamePart fresh a pools).parts j) ∙ sym (same_kind j)

  -- An operand of a visited node was visited.
  visited_left :
      (i j : ℕ)
      → is_visited i a.node_map ≡ true
      → (node_at q i).left ≡ some j
      → is_visited j a.node_map ≡ true
  visited_left i j v e =
      let done = ok.closed.left i v in
      let same = sym (final-SameTree fresh a pools i).0 ∙ e in rw same at done

  visited_right :
      (i j : ℕ)
      → is_visited i a.node_map ≡ true
      → (node_at q i).right ≡ some j
      → is_visited j a.node_map ≡ true
  visited_right i j v e =
      let done = ok.closed.right i v in
      let same = sym (final-SameTree fresh a pools i).1 ∙ e in rw same at done

  register :
      (m i : ℕ)
      → get_elem? nodes m ≡ some i
      → is_carried (node_at q i).kind ≡ true
      → carry_register (node_at q i).carry_reg ≡ 21 + carries.number m
  register m i g t =
      ap carry_register (carries.carry m i g (ap is_carried (slots_kind i) ∙ t)).2
      ∙ carry_register-pos (carries.number m)

  -- Two registers of the carries, in the order of the nodes.
  registers_apart :
      (m n i j : ℕ)
      → m < n
      → get_elem? nodes m ≡ some i
      → get_elem? nodes n ≡ some j
      → is_carried (node_at q i).kind ≡ true
      → is_carried (node_at q j).kind ≡ true
      → carry_register (node_at q i).carry_reg ≢ carry_register (node_at q j).carry_reg
  registers_apart m n i j h f g t u same =
      let more =
        carries.increasing m n i j h f g (ap is_carried (slots_kind i) ∙ t)
          (ap is_carried (slots_kind j) ∙ u) in
      absurd (omega (arith, same, register m i f t, register n j g u, more))

  -- The collected comparisons were visited.
  collect-visited :
      (n : ℕ) (r : Pointer)
      → IsDone a r
      → (m i : ℕ) → get_elem? (collect_comparisons n q r) m ≡ some i
      → is_visited i a.node_map ≡ true
  unfolding collect_comparisons
  collect-visited n none done m i g = absurd (cc g)
  collect-visited zero (some l) done m i g = absurd (cc g)
  collect-visited (suc n) (some l) done m i g =
      let left =
        collect-visited n (node_at q l).left
          (rw ((final-SameTree fresh a pools l).0) (ok.closed.left l done)) in
      let right =
        collect-visited n (node_at q l).right
          (rw ((final-SameTree fresh a pools l).1) (ok.closed.right l done)) in
      let both =
        collect_comparisons n q (node_at q l).left ++ collect_comparisons n q (node_at q l).right in
      elim (Bool-cases (is_comparison (node_at q l).kind)) [
        | inl one ↦ let g' : get_elem? (l ∷ []) m ≡ some i = rw one at g in rw (only l m i g') done
        | inr other ↦ elim (Bool-cases (is_and (node_at q l).kind)) [
          | inr nothing ↦
              let g' : get_elem? [] m ≡ some i = rw (other, nothing) at g in absurd (cc g')
          | inl conjunction ↦
              let g' : get_elem? both m ≡ some i = rw (other, conjunction) at g in
              elim (get_elem?-append (collect_comparisons n q (node_at q l).left) _ m i g') [
                | inl (k, f) ↦ left k i f
                | inr (k, f) ↦ right k i f
              ]
        ]
      ]

  placed :
      (j : ℕ)
      → is_visited j a.node_map ≡ true
      → is_carried (node_at a.pool j).kind ≡ true
      → (k : ℕ) × (k < length nodes) × (get_elem? nodes k ≡ some j)
  placed j v t = let (k, g) = ok.arranged.sums j v t in (k, get_elem?-lt nodes k j g, g)

  -- The address and the planes of a constant.
  module _ {call : Call} (memory : HoldsConstants call (created fresh a pools).2) where
    constant :
        (j : ℕ)
        → is_visited j a.node_map ≡ true
        → (node_at q j).kind ≡ const
        → IsU64 (planes_of j constants)
          × HoldsPlanes call (planes_of j constants) (λ r. to_u64 (node_at q j).const_value)
    constant j v e =
        let value = (node_at q j).const_value in
        let p1 = fields_pool fresh a pools in
        let (k, g) = ok.arranged.constants j v (sym (same_kind j) ∙ e) in
        let before : const_of p1 j ≡ value =
          ap (λ (t : Core). t.5)
            ((number_fields-SamePart core_of (λ n x. refl) a.load_nodes [] a.pool).parts j)
          ∙ sym (final-SameTree fresh a pools j).5 in
        constant-HoldsPlanes call value j constants (created fresh a pools).2
          (create_planes-IsFilled fresh a.const_nodes [] p1 pools filled) memory
          (create_planes-HasPlanesOf fresh value j a.const_nodes [] p1 pools k g filled before)

    module _ {field : ℕ → Name → ℕ} (fields : HoldsFields q call field a.all_nodes) where
      operand :
          (m j : ℕ)
          → is_visited j a.node_map ≡ true
          → (is_carried (node_at a.pool j).kind ≡ true
              → (k : ℕ) × (k < m) × (get_elem? nodes k ≡ some j))
          → IsOperand constants q field call nodes m j
      operand m j v place = record {
        fields = λ u e w. let (k, g) = ok.listed.listed j v in field_planes e w (fields k j g e);
        const_address = λ e. (constant j v e).0;
        consts = λ u e w. const_planes e w (constant j v e).1;
        slot = λ t.
            let (k, below, g) = place (carried_before j t) in
            let result =
              ap (λ (t : Core). t.6) ((final-SamePart fresh a pools).parts j)
              ∙ ok.arranged.results j v (carried_before j t) in
            (k, below, g, slot_of k j g, result);
      }

      numbered :
          (m i : ℕ)
          → get_elem? nodes m ≡ some i
          → is_carried (node_at q i).kind ≡ true
          → IsNumbered constants q field call nodes m i
      numbered m i g t =
          let v = (ok.arranged.seen m i g).0 in
          let (low, small, reg) = carries.carry m i g (ap is_carried (slots_kind i) ∙ t) in
          let tree = final-SameTree fresh a pools i in
          record {
            slot = slot_of m i g;
            carry = (carries.number m, small, reg);
            left = λ j e.
                operand m j (visited_left i j v e)
                  (ok.arranged.operands m i j g (inl (sym tree.0 ∙ e)));
            right = λ j e.
                operand m j (visited_right i j v e)
                  (ok.arranged.operands m i j g (inr (sym tree.1 ∙ e)));
          }

      pub final-AreNumbered :
          call.s + 8 * call.size ≤ two64
          → 512 ≤ call.size
          → ((r : ℕ) (name : Name) → IsU64 (field r name))
          → AreNumbered constants q field call nodes
      final-AreNumbered room size words = record {
        room = room;
        slots = omega (arith, few, size);
        words = words;
        numbered = numbered;
        apart = λ m n i j other f g t u. elim (dec_lt m n) [
          | yes before ↦ registers_apart m n i j before f g t u
          | no after ↦
              λ same. registers_apart n m j i (omega (arith, after, other)) g f u t (sym same)
        ];
      }

      pub final-AreComparable :
          (root : ℕ)
          → is_visited root a.node_map ≡ true
          → AreComparable constants q field call nodes (final_comparisons fresh a pools root)
      final-AreComparable root v = record {
        left = λ m i j g e.
            let w = visited_left i j (collect-visited max_nodes (some root) v m i g) e in
            operand (length nodes) j w (λ t. placed j w t);
        right = λ m i j g e.
            let w = visited_right i j (collect-visited max_nodes (some root) v m i g) e in
            operand (length nodes) j w (λ t. placed j w t);
      }
