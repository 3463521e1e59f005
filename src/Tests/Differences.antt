-- ===== src/Tests/Differences.antt =====
-- The kernel on bit planes where it subtracts: its difference is right on row 0 alone.
use apex_engine.Common.{
  ℕ, zero, suc, ◌+◌, ◌*◌, ◌<◌, ◌≡◌, refl, sym, ap, arith, pos, List, [], ◌∷◌, Option, some, none,
  true, get_elem?, ltb, ◌&&◌, Name,
}
use apex_engine.Word.{add64, sub64, test_bit}
use apex_engine.Arm64.{Cpu, go, exec}
use apex_engine.Arm64.Flow.{execs}
use apex_engine.Ir.{NodePool, node_at, fresh_node, const, sub, gt, bitmask}
use apex_engine.Jit.Emit.{to_u64}
use apex_engine.Jit.ConstPool.Planes.{planes-bits}
use apex_engine.Jit.Scalar.{byte_offset}
use apex_engine.Jit.Expression.{expression_code, save_registers, planes_of, is_carried}
use apex_engine.Jit.Expression.Columns.{
  Column, field_column, const_column, sum_column, difference_column, difference, greater, Tests,
  no_tests, more_tests,
}
use apex_engine.Jit.Expression.Operands.{HoldsPlanes, FieldPlanes, IsOperand}
use apex_engine.Jit.Expression.Steps.{IsNumbered, AreNumbered}
use apex_engine.Jit.Expression.Masks.{AreComparable}
use apex_engine.Jit.Expression.Frame.{RestoresAll}
use apex_engine.Jit.Expression.Correct.{expression_code-evaluates}
use apex_engine.Tests.Planes.{
  field_a, values, caller, call, memory, frame, not_scratch, plane_address, const_word, a_planes,
}

-- a - a > 10, with the numbers that the compiler gives
abbrev pool : NodePool
pool = record {
  storage =
      record fresh_node { field_name = field_a; field_idx = pos 0 }
      ∷ record fresh_node { kind = const; const_value = pos 10 }
      ∷ record fresh_node {
        kind = sub;
        left = some 0;
        right = some 0;
        slot_id = pos 0;
        carry_reg = pos 0;
      }
      ∷ record fresh_node { kind = gt; result_kind = bitmask; left = some 2; right = some 1 }
      ∷ [];
  next_idx = 4;
}

abbrev planes : List (ℕ × ℕ)
planes = (1, 4000) ∷ []

abbrev field : ℕ → Name → ℕ
field r name = values r

column_planes : (v : ℕ → ℕ) → Column pool field 0 v → FieldPlanes pool call 0 v
unfolding byte_offset save_registers execs exec add64 sub64 memory
column_planes v (field_column e) = record {
  base = 2000;
  pointer = refl;
  pointer_kept = not_scratch 1000 (omega arith);
  holds = a_planes;
}
column_planes v (const_column e) = cc
column_planes v (sum_column e l r x y) = cc
column_planes v (difference_column e l r x y) = cc

ten_planes : (v : ℕ → ℕ) → Column pool field 1 v → HoldsPlanes call 4000 v
ten_planes v (field_column e) = cc
ten_planes v (sum_column e l r x y) = cc
ten_planes v (difference_column e l r x y) = cc
ten_planes v (const_column e) = record {
  planes = λ k h. rw (const_word k h) (record { bits = λ r hr. planes-bits (pos 10) k r h hr });
  planes_kept = λ k h.
      rw (plane_address 4000 k (omega arith) h) (not_scratch (4000 + 8 * k) (omega (arith, h)));
}

IsOperand-a : (m : ℕ) → IsOperand planes pool field call (2 ∷ []) m 0
unfolding is_carried
IsOperand-a m = record {
  fields = λ v e w. column_planes v w;
  const_address = λ e. cc;
  consts = λ v e w. cc;
  slot = λ t. cc;
}

IsOperand-ten : (m : ℕ) → IsOperand planes pool field call (2 ∷ []) m 1
unfolding is_carried planes_of
IsOperand-ten m = record {
  fields = λ v e w. cc;
  const_address = λ e. omega arith;
  consts = λ v e w. ten_planes v w;
  slot = λ t. cc;
}

IsOperand-difference : IsOperand planes pool field call (2 ∷ []) 1 2
IsOperand-difference = record {
  fields = λ v e w. cc;
  const_address = λ e. cc;
  consts = λ v e w. cc;
  slot = λ t. (0, omega arith, refl, refl, refl);
}

abbrev number : Option ℕ → ℕ
number none = 0
number (some n) = n

numbered :
    (m i : ℕ) → get_elem? (2 ∷ []) m ≡ some i → IsNumbered planes pool field call (2 ∷ []) m i
numbered zero i g =
    let same : 2 ≡ i = ap number g in
    rw (sym same) (record {
      slot = refl;
      carry = (0, omega arith, refl);
      left = λ j e. let at : 0 ≡ j = ap number e in rw (sym at) (IsOperand-a 0);
      right = λ j e. let at : 0 ≡ j = ap number e in rw (sym at) (IsOperand-a 0);
    })
numbered (suc m) i g = absurd (cc g)

only_first : (m i : ℕ) → get_elem? (2 ∷ []) m ≡ some i → m ≡ 0
only_first zero i g = refl
only_first (suc m) i g = absurd (cc g)

are_numbered : AreNumbered planes pool field call (2 ∷ [])
are_numbered = record {
  room = omega arith;
  slots = omega arith;
  words = λ r name. omega arith;
  numbered = λ m i g t. numbered m i g;
  apart =
      λ m n i j other f g t u. absurd (omega (arith, other, only_first m i f, only_first n j g));
}

left_ready :
    (m i j : ℕ)
    → get_elem? (3 ∷ []) m ≡ some i
    → (node_at pool i).left ≡ some j
    → IsOperand planes pool field call (2 ∷ []) 1 j
left_ready zero i j g e =
    let same : 3 ≡ i = ap number g in
    let e' = rw (sym same) at e in let at : 2 ≡ j = ap number e' in rw (sym at) IsOperand-difference
left_ready (suc m) i j g e = absurd (cc g)

right_ready :
    (m i j : ℕ)
    → get_elem? (3 ∷ []) m ≡ some i
    → (node_at pool i).right ≡ some j
    → IsOperand planes pool field call (2 ∷ []) 1 j
right_ready zero i j g e =
    let same : 3 ≡ i = ap number g in
    let e' = rw (sym same) at e in let at : 1 ≡ j = ap number e' in rw (sym at) (IsOperand-ten 1)
right_ready (suc m) i j g e = absurd (cc g)

comparable : AreComparable planes pool field call (2 ∷ []) (3 ∷ [])
comparable = record { left = left_ready; right = right_ready }

tests : Tests pool field (3 ∷ []) (λ r. ltb 10 (difference r (values r) (values r)) && true)
unfolding to_u64
tests =
    more_tests
      (greater refl refl refl
        (difference_column refl refl refl (field_column refl) (field_column refl))
        (const_column refl))
      no_tests

-- On row 1 the kernel finds 1 - 1 greater than 10.
expression_code-evaluates_example :
    (fuel : ℕ) × (d : Cpu) × (go fuel
        (expression_code planes pool (2 ∷ []) (3 ∷ []))
        (expression_code planes pool (2 ∷ []) (3 ∷ []))
        caller
      ≡ some d)
    × ((r : ℕ)
        → r < 64
        → test_bit (d.reg 0) r ≡ (ltb 10 (difference r (values r) (values r)) && true))
    × RestoresAll caller d
expression_code-evaluates_example =
    expression_code-evaluates planes pool (2 ∷ []) (3 ∷ []) field
      (λ r. ltb 10 (difference r (values r) (values r)) && true) 512 caller frame are_numbered
      comparable (omega arith) tests
