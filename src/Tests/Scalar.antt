-- ===== src/Tests/Scalar.antt =====
-- The scalar kernel at a concrete expression and memory.
use apex_engine.Common.{
  ℕ, zero, suc, ◌-◌, ◌/◌, ◌<◌, ◌≡◌, refl, arith, pos, List, [], ◌∷◌, Option, some, none, true,
  get_elem?, replicate, ltb, ◌==◌, if◌then◌else◌, Name, find, assign, name_eq, inl, ap, sym,
}
use apex_engine.Word.{add64, sub64, shl64, test_bit}
use apex_engine.Arm64.{Cpu, go, exec}
use apex_engine.Arm64.Flow.{execs}
use apex_engine.Ir.{NodePool, node_at, fresh_node, load, const, gt}
use apex_engine.Ir.{bitmask, max_nodes}
use apex_engine.Jit.Analyzer.{Analysis, analyze, is_visited, finish, categorize, mark}
use apex_engine.Jit.Analyzer.Total.{new_analysis}
use apex_engine.Jit.Emit.{to_u64, c_string, assign_fields, set_field_idx, number_field, index_of}
use apex_engine.Jit.Scalar.{scalar_code, byte_offset, prologue, compile_scalar_expression}
use apex_engine.Jit.Scalar.Kernel.{compile_scalar_expression-evaluates}
use apex_engine.Ir.{new_pool, load_node, strncpy, build, alloc, const_node, gt_node}
use apex_engine.Ir.Acyclic.{IsAcyclic, starts, steps, loads, constants, by_gt, reachable-IsAcyclic}
use apex_engine.Ir.Acyclic
use apex_engine.Tests.Machine.{interpreter}
use apex_engine.Jit.Scalar.Value.{Value, loaded, constant, binary, flag}
use apex_engine.Jit.Scalar.Row.{FieldAt}
use apex_engine.Jit.Scalar.Loop.{Input}
use apex_engine.Jit.Scalar.Correct.{HasStack, entered, Restores, scalar_code-evaluates}

-- "a"
abbrev field_a : List ℕ
field_a = 97 ∷ replicate 63 0

-- a > 10
abbrev tree : NodePool
tree = record {
  storage =
      record fresh_node { field_name = field_a; field_idx = pos 0 }
      ∷ record fresh_node { kind = const; const_value = pos 10 }
      ∷ record fresh_node { kind = gt; left = some 0; right = some 1 }
      ∷ [];
  next_idx = 3;
}

-- The array of fields at 1000, that of field a at 2000, with row `r`'s value `r`.
abbrev memory : ℕ → ℕ
memory a = if a == 1000 then 2000 else (a - 2000) / 8

abbrev caller : Cpu
caller = record {
  reg = λ r. if r == 0 then 1000 else (if r == 1 then 4096 else 7);
  mem = memory;
  sp = 65536;
  compared = (0, 0);
}

abbrev field : ℕ → Name → ℕ
field r name = r

abbrev flags : ℕ → ℕ
flags r = flag (ltb 10 r)

caller-HasStack : HasStack 3 caller
caller-HasStack = record { low = omega arith; high = omega arith; apart = λ k h. inl (omega arith) }

column : (r : ℕ) → r < 64 → (entered 3 caller).memory (add64 2000 (shl64 r 3)) ≡ r
unfolding prologue execs exec
column r h = unfold add64 shl64 sub64 in ground (arith, h)

first_FieldAt : (r : ℕ) → r < 64 → FieldAt tree (entered 3 caller) r (field r) 0
unfolding byte_offset prologue execs exec add64 sub64
first_FieldAt r h = record {
  base = 2000;
  pointer = refl;
  value = column r h;
  pointer_kept = λ k hk e. absurd (omega (arith, e));
  value_kept = λ k hk e. absurd (unfold add64 shl64 in omega (arith, e, h, hk));
}

abbrev number : Option ℕ → ℕ
number none = 0
number (some n) = n

in_tree :
    (r k j : ℕ)
    → r < 64
    → get_elem? (0 ∷ 1 ∷ 2 ∷ []) k ≡ some j
    → (node_at tree j).kind ≡ load
    → FieldAt tree (entered 3 caller) r (field r) j
in_tree r zero j h g e = let same : 0 ≡ j = ap number g in rw (sym same) (first_FieldAt r h)
in_tree r (suc zero) j h g e =
    let same : 1 ≡ j = ap number g in let e' = rw (sym same) at e in absurd (cc e')
in_tree r (suc (suc zero)) j h g e =
    let same : 2 ≡ j = ap number g in let e' = rw (sym same) at e in absurd (cc e')
in_tree r (suc (suc (suc k))) j h g e = absurd (cc g)

values : (r : ℕ) → Value tree (field r) 2 (flags r)
unfolding to_u64
values r = binary refl refl (loaded refl) (constant refl) refl

input : Input tree (entered 3 caller) field flags 0 (1 ∷ 2 ∷ [])
input = record {
  room = omega arith;
  fit = omega arith;
  ordered = (
    (λ j e. absurd (cc e)),
    (λ j e. absurd (cc e)),
    (
      (λ j e. absurd (cc e)),
      (λ j e. absurd (cc e)),
      ((λ j e. (0, e)), (λ j e. (1, e)), omega arith),
    ),
  );
  fields = in_tree;
  values = λ r h. values r;
  small = λ r h. ground arith;
}

-- Row 12 is greater than 10, and row 12 is marked.
scalar_code-evaluates_example :
    (fuel : ℕ) × (d : Cpu) × (go fuel
        (scalar_code tree (0 ∷ 1 ∷ 2 ∷ []))
        (scalar_code tree (0 ∷ 1 ∷ 2 ∷ []))
        caller
      ≡ some d)
    × (test_bit (d.reg 0) 12 ≡ true)
    × Restores caller d
scalar_code-evaluates_example =
    scalar_code-evaluates tree 0 (1 ∷ 2 ∷ []) field flags 3 caller caller-HasStack input 12
      (omega arith)

-- A pool with the same tree, as the builders make it.
abbrev pool : NodePool
pool = record {
  storage =
      record fresh_node { field_name = field_a }
      ∷ record fresh_node { kind = const; const_value = pos 10 }
      ∷ record fresh_node { kind = gt; result_kind = bitmask; left = some 0; right = some 1 }
      ∷ replicate 125 fresh_node;
  next_idx = 3;
}

abbrev analyzed : Analysis
analyzed = record {
  pool = pool;
  node_map = (2, 2) ∷ (1, 1) ∷ (0, 0) ∷ [];
  load_nodes = 0 ∷ [];
  const_nodes = 1 ∷ [];
  arithmetic_nodes = [];
  all_nodes = 0 ∷ 1 ∷ 2 ∷ [];
}

pool_analyzed : analyze max_nodes (some 2) (new_analysis pool) ≡ some analyzed
unfolding analyze is_visited finish categorize mark
pool_analyzed = refl

abbrev numbered : NodePool
numbered = assign_fields (0 ∷ []) [] pool

-- The pool behind the first builder, and behind the second.
abbrev with_load : NodePool
with_load = record {
  storage = record fresh_node { field_name = field_a } ∷ replicate 127 fresh_node;
  next_idx = 1;
}

loads_a : load_node (97 ∷ 0 ∷ []) new_pool ≡ some (some 0, with_load)
unfolding load_node strncpy build alloc
loads_a = refl

pool-IsAcyclic : IsAcyclic pool
unfolding const_node gt_node build alloc
pool-IsAcyclic =
    reachable-IsAcyclic {p = (gt_node (some 0) (some 1) (const_node (pos 10) with_load).1).1} (
      steps (steps (steps starts (loads (97 ∷ 0 ∷ []) loads_a)) (constants (pos 10)))
        (Acyclic.binary gt_node (some 0) (some 1) by_gt (omega arith) (omega arith)))

stack : HasStack max_nodes caller
stack = record { low = omega arith; high = omega arith; apart = λ k h. inl (omega arith) }

numbered-FieldAt : (r : ℕ) → r < 64 → FieldAt numbered (entered max_nodes caller) r (field r) 0
unfolding byte_offset prologue execs exec add64 sub64 assign_fields set_field_idx number_field
    index_of c_string find assign name_eq
numbered-FieldAt r h = record {
  base = 2000;
  pointer = refl;
  value = unfold shl64 in ground (arith, h);
  pointer_kept = λ k hk e. absurd (omega (arith, e));
  value_kept = λ k hk e. absurd (unfold shl64 in omega (arith, e, h, hk));
}

numbered_loads :
    (r j m : ℕ)
    → r < 64
    → get_elem? (0 ∷ 1 ∷ 2 ∷ []) m ≡ some j
    → (node_at numbered j).kind ≡ load
    → FieldAt numbered (entered max_nodes caller) r (field r) j
unfolding assign_fields set_field_idx
numbered_loads r j zero h g e =
    let same : 0 ≡ j = ap number g in rw (sym same) (numbered-FieldAt r h)
numbered_loads r j (suc zero) h g e =
    let same : 1 ≡ j = ap number g in let e' = rw (sym same) at e in absurd (cc e')
numbered_loads r j (suc (suc zero)) h g e =
    let same : 2 ≡ j = ap number g in let e' = rw (sym same) at e in absurd (cc e')
numbered_loads r j (suc (suc (suc m))) h g e = absurd (cc g)

pool_values : (r : ℕ) → Value pool (field r) 2 (flags r)
unfolding to_u64
pool_values r = binary refl refl (loaded refl) (constant refl) refl

-- Compiled and called, the expression marks row 12.
compile_scalar_expression-evaluates_example :
    (compile_scalar_expression interpreter (some 2) pool
      ≡ some (interpreter.add_expr (scalar_code numbered (0 ∷ 1 ∷ 2 ∷ [])), numbered))
    × (fuel : ℕ) × (d : Cpu) × (go fuel
          (scalar_code numbered (0 ∷ 1 ∷ 2 ∷ []))
          (scalar_code numbered (0 ∷ 1 ∷ 2 ∷ []))
          caller
        ≡ some d)
    × (test_bit (d.reg 0) 12 ≡ true)
    × Restores caller d
compile_scalar_expression-evaluates_example =
    compile_scalar_expression-evaluates interpreter pool 2 analyzed field flags caller
      pool-IsAcyclic (omega arith) pool_analyzed stack (omega arith) numbered_loads
      (λ r h. pool_values r) (λ r h. ground arith) 12 (omega arith)
