-- ===== src/Tests/Kernel.antt =====
-- The expression compiled, and its kernel called.
use apex_engine.Common.{
  ℕ, zero, suc, ◌+◌, ◌*◌, ◌<◌, ◌≤◌, ◌≡◌, refl, sym, ap, arith, ℤ, pos, [], ◌∷◌, Option, some, none,
  true, get_elem?, ltb, ◌==◌, find, assign, name_eq, length, inl, inr, Bool-cases,
}
use apex_engine.Word.{add64, sub64, test_bit}
use apex_engine.Arm64.{Cpu, go, exec}
use apex_engine.Arm64.Flow.{execs}
use apex_engine.Ir.{node_at, load}
use apex_engine.Jit.Scalar.Value.{Value, loaded, constant, binary, flag}
use apex_engine.Jit.Emit.{to_u64, c_string, number_field, index_of, set_field_idx}
use apex_engine.Jit.Scalar.{byte_offset}
use apex_engine.Jit.Scratchpad.{alloc_slot, alloc_from}
use apex_engine.Jit.ConstPool.{ConstPlanes, planes_from, find_planes, get_or_create, int_eq}
use apex_engine.Jit.Expression.{
  save_registers, is_slot, is_carried, collect_comparisons, is_comparison,
}
use apex_engine.Jit.Expression.Operands.{FieldPlanes}
use apex_engine.Jit.Expression.Totality.{fits}
use apex_engine.Jit.Expression.Compile.{
  number_fields, create_planes, assign_slots, assign_carries, set_slot_id, set_carry_reg,
  compile_expression,
}
use apex_engine.Jit.ConstPool.Planes.{no_planes}
use apex_engine.Jit.Expression.Kernel.{compile_expression-evaluates}
use apex_engine.Tests.Machine.{interpreter}
use apex_engine.Jit.Expression.Constants.{HoldsConstants}
use apex_engine.Jit.Expression.Sliced.{IsPredicate, sum_load, sum_const, sum_add}
use apex_engine.Jit.Expression.Sliced
use apex_engine.Jit.Expression.Final.{final_code, final_comparisons}
use apex_engine.Jit.Expression.Frame.{RestoresAll}
use apex_engine.Tests.Planes.{
  pool, analyzed, pool_analyzed, pool-IsAcyclic, fresh, final, created_here, values, caller, call,
  memory, frame, not_scratch, plane_address, const_word, a_planes,
}

-- The field's number is 0.
first-FieldPlanes : FieldPlanes final call 0 values
unfolding byte_offset number_fields create_planes get_or_create find_planes assign_slots
    assign_carries set_slot_id set_carry_reg alloc_slot alloc_from is_slot is_carried c_string
    number_field index_of set_field_idx find assign name_eq save_registers execs exec add64 sub64
    memory
first-FieldPlanes = record {
  base = 2000;
  pointer = refl;
  pointer_kept = not_scratch 1000 (omega arith);
  holds = a_planes;
}

abbrev number : Option ℕ → ℕ
number none = 0
number (some n) = n

only_load :
    (m j : ℕ)
    → get_elem? (0 ∷ 2 ∷ 1 ∷ 3 ∷ []) m ≡ some j
    → (node_at final j).kind ≡ load
    → FieldPlanes final call j values
unfolding number_fields create_planes assign_slots assign_carries set_slot_id set_carry_reg
    set_field_idx is_slot is_carried alloc_slot alloc_from get_or_create find_planes c_string
    number_field index_of find assign name_eq
only_load zero j g e = let same : 0 ≡ j = ap number g in rw (sym same) first-FieldPlanes
only_load (suc zero) j g e =
    let same : 2 ≡ j = ap number g in let e' = rw (sym same) at e in absurd (cc e')
only_load (suc (suc zero)) j g e =
    let same : 1 ≡ j = ap number g in let e' = rw (sym same) at e in absurd (cc e')
only_load (suc (suc (suc zero))) j g e =
    let same : 3 ≡ j = ap number g in let e' = rw (sym same) at e in absurd (cc e')
only_load (suc (suc (suc (suc m)))) j g e = absurd (cc g)

abbrev made_planes : ConstPlanes
made_planes = record { address = 4000; bit_planes = planes_from 64 0 (pos 10) }

found_constant :
    (value : ℤ) (planes : ConstPlanes)
    → find_planes value created_here.2 ≡ some planes
    → (planes.address ≡ 4000) × (planes.bit_planes ≡ planes_from 64 0 (pos 10))
unfolding create_planes get_or_create find_planes number_fields c_string set_field_idx number_field
    find assign name_eq
found_constant value planes e = elim (Bool-cases (int_eq (pos 10) value)) [
  | inl same ↦
      let found : some made_planes ≡ some planes = rw same at e in
      let made : made_planes ≡ planes = cc found in
      (
        ap (λ (m : ConstPlanes). m.address) (sym made),
        ap (λ (m : ConstPlanes). m.bit_planes) (sym made),
      )
  | inr other ↦ let missing : none ≡ some planes = rw other at e in absurd (cc missing)
]

holds_constants : HoldsConstants call created_here.2
holds_constants = record {
  addresses = λ value planes e. rw ((found_constant value planes e).0) (omega arith);
  words = λ value planes k e h.
      let (address, bits) = found_constant value planes e in
      rw (address, bits)
        (
          const_word k h,
          rw (plane_address 4000 k (omega arith) h) (not_scratch (4000 + 8 * k) (omega (arith, h))),
        );
}

predicate : IsPredicate pool 3
predicate =
    Sliced.by_gt refl refl refl (sum_add refl refl refl (sum_load refl) (sum_load refl))
      (sum_const refl)

abbrev flags : ℕ → ℕ
flags r = flag (ltb 10 (add64 (values r) (values r)))

pool_values : (r : ℕ) → Value pool (λ name. values r) 3 (flags r)
unfolding to_u64
pool_values r =
    binary refl refl (binary refl refl (loaded refl) (loaded refl) refl) (constant refl) refl

enough : fits analyzed ≡ true
unfolding number_field c_string find assign
enough = refl

three : length (final_comparisons fresh analyzed [] 3) ≤ 3
unfolding collect_comparisons is_comparison number_fields create_planes assign_slots assign_carries
    set_slot_id set_carry_reg set_field_idx is_slot is_carried alloc_slot alloc_from get_or_create
    find_planes c_string number_field index_of find assign name_eq
three = omega arith

-- 2 * 12 is greater than 10, and 2 * 5 is not.
compile_expression-evaluates_example :
    (compile_expression interpreter fresh (some 3) pool []
      ≡ some (interpreter.add_expr (final_code fresh analyzed [] 3), final, created_here.2))
    × (fuel : ℕ) × (d : Cpu) × (go fuel
          (final_code fresh analyzed [] 3)
          (final_code fresh analyzed [] 3)
          caller
        ≡ some d)
    × ((r : ℕ) → r < 64 → test_bit (d.reg 0) r ≡ (flags r == 1))
    × RestoresAll caller d
compile_expression-evaluates_example =
    compile_expression-evaluates interpreter fresh pool 3 analyzed [] (λ r name. values r) flags
      caller pool-IsAcyclic (omega arith) pool_analyzed enough no_planes frame (omega arith)
      only_load holds_constants (λ r name. omega arith) predicate three (λ r h. pool_values r)
