-- ===== src/Tests/Planes.antt =====
-- The kernel on bit planes, compiled from a concrete expression and called on concrete planes.
use Prim.Native.Nat.{bit_or}
use apex_engine.Common.{
  ℕ, zero, suc, ◌+◌, ◌-◌, ◌*◌, ◌/◌, ◌%◌, ◌<◌, ◌≤◌, ◌≡◌, refl, ◌∙◌, ap, arith, pos, List, [], ◌∷◌,
  some, get_or, replicate, ltb, ◌==◌, ◌&&◌, if◌then◌else◌, inl,
}
use apex_engine.Word.{add64, sub64, shl64, test_bit}
use apex_engine.Word.Bitwise.{test_bit-zero}
use apex_engine.Word.Compare.{IsPlane}
use apex_engine.Arm64.{Cpu, exec}
use apex_engine.Arm64.Flow.{execs}
use apex_engine.Ir.{
  NodePool, fresh_node, const, add, gt, bitmask, max_nodes, new_pool, load_node, strncpy, build,
  alloc, const_node, add_node, gt_node,
}
use apex_engine.Ir.Acyclic.{
  IsAcyclic, starts, steps, loads, constants, by_add, by_gt, reachable-IsAcyclic,
}
use apex_engine.Ir.Acyclic
use apex_engine.Jit.Analyzer.{Analysis, analyze, is_visited, finish, categorize, mark}
use apex_engine.Jit.Analyzer.Total.{new_analysis}
use apex_engine.Jit.Scalar.Row.{Call, Untouched}
use apex_engine.Jit.Scalar.Whole.{mask_next}
use apex_engine.Jit.Scalar.Value.{flag}
use apex_engine.Jit.ConstPool.{ConstPool, planes_from}
use apex_engine.Jit.Expression.{save_registers}
use apex_engine.Jit.Expression.Operands.{HoldsPlanes}
use apex_engine.Jit.Expression.Final.{created, final_pool}
use apex_engine.Jit.Expression.Frame.{HasFrame, framed}

-- "a"
abbrev pub field_a : List ℕ
field_a = 97 ∷ replicate 63 0

-- a + a > 10
abbrev pub pool : NodePool
pool = record {
  storage =
      record fresh_node { field_name = field_a }
      ∷ record fresh_node { kind = const; const_value = pos 10 }
      ∷ record fresh_node { kind = add; left = some 0; right = some 0 }
      ∷ record fresh_node { kind = gt; result_kind = bitmask; left = some 2; right = some 1 }
      ∷ replicate 124 fresh_node;
  next_idx = 4;
}

abbrev pub analyzed : Analysis
analyzed = record {
  pool = pool;
  node_map = (3, 3) ∷ (1, 2) ∷ (2, 1) ∷ (0, 0) ∷ [];
  load_nodes = 0 ∷ [];
  const_nodes = 1 ∷ [];
  arithmetic_nodes = 2 ∷ [];
  all_nodes = 0 ∷ 2 ∷ 1 ∷ 3 ∷ [];
}

pub pool_analyzed : analyze max_nodes (some 3) (new_analysis pool) ≡ some analyzed
unfolding analyze is_visited finish categorize mark
pool_analyzed = refl

-- The pool behind the first builder.
abbrev with_load : NodePool
with_load = record {
  storage = record fresh_node { field_name = field_a } ∷ replicate 127 fresh_node;
  next_idx = 1;
}

loads_a : load_node (97 ∷ 0 ∷ []) new_pool ≡ some (some 0, with_load)
unfolding load_node strncpy build alloc
loads_a = refl

pub pool-IsAcyclic : IsAcyclic pool
unfolding const_node add_node gt_node build alloc
pool-IsAcyclic =
    reachable-IsAcyclic
      {p = (gt_node (some 2) (some 1)
        (add_node (some 0) (some 0) (const_node (pos 10) with_load).1).1).1}
      (steps
        (steps (steps (steps starts (loads (97 ∷ 0 ∷ []) loads_a)) (constants (pos 10)))
          (Acyclic.binary add_node (some 0) (some 0) by_add (omega arith) (omega arith)))
        (Acyclic.binary gt_node (some 2) (some 1) by_gt (omega arith) (omega arith)))

-- The plane of a flag for each row.
plane : (ℕ → ℕ) → ℕ → ℕ
plane flags zero = 0
plane flags (suc n) = bit_or (plane flags n) (shl64 (flags n) (n % 64))

test_bit-plane :
    (flags : ℕ → ℕ) (n k : ℕ)
    → ((r : ℕ) → flags r ≤ 1)
    → n ≤ 64
    → k < 64
    → test_bit (plane flags n) k ≡ (ltb k n && flags k == 1)
unfolding plane
test_bit-plane flags zero k small h hk = test_bit-zero k ∙ ground arith
test_bit-plane flags (suc n) k small h hk =
    mask_next (plane flags n) (flags n) flags n k hk (omega (arith, h)) (small n) refl
      (test_bit-plane flags n k small (omega (arith, h)) hk)
    ∙ ap (λ (t : ℕ). ltb k t && flags k == 1) (omega arith)

-- Row `r` has value `r`.
abbrev pub values : ℕ → ℕ
values r = r % 64

pub word : ℕ → ℕ
word k = plane (λ r. flag (test_bit r k)) 64

word-IsPlane : (k : ℕ) → IsPlane k values (word k)
unfolding word
word-IsPlane k = record {
  bits = λ r h.
      test_bit-plane (λ r. flag (test_bit r k)) 64 r (λ r. ground arith) (omega arith) h
      ∙ ground (arith, h)
      ∙ ap (λ (n : ℕ). test_bit n k) {x = r} {y = r % 64} (omega (arith, h));
}

abbrev pub fresh : ℕ → ℕ
fresh n = 4000 + 512 * n

-- The pointers to the planes at 1000, the planes of field a at 2000, those of the constant at 4000.
unfoldable pub memory : ℕ → ℕ
memory a =
    if a == 1000
    then 2000
    else (if ltb a 3000
        then word ((a - 2000) / 8)
        else get_or (planes_from 64 0 (pos 10)) ((a - 4000) / 8) 0)

abbrev pub caller : Cpu
caller = record {
  reg = λ r. if r == 0 then 1000 else (if r == 1 then 8192 else 7);
  mem = memory;
  sp = 65536;
  compared = (0, 0);
}

abbrev pub call : Call
call = framed 512 caller

pub frame : HasFrame 512 caller
frame = record { low = omega arith; high = omega arith; apart = λ k h. inl (omega arith) }

-- The prologue's stack is not in the way.
pub below_stack : (a : ℕ) → a < 60000 → call.memory a ≡ memory a
unfolding save_registers execs exec add64 sub64
below_stack a h = ground (arith, h)

pub plane_address : (base k : ℕ) → base < 5000 → k < 64 → add64 base (shl64 k 3) ≡ base + 8 * k
unfolding add64 shl64
plane_address base k small h = omega (arith, small, h)

pub not_scratch : (a : ℕ) → a < 8192 → Untouched call a
not_scratch a h k hk e = omega (arith, h, e)

abbrev pub final : NodePool
final = final_pool fresh analyzed []

abbrev pub created_here : List (ℕ × ℕ) × NodePool × ConstPool
created_here = created fresh analyzed []

field_word : (k : ℕ) → k < 64 → call.memory (add64 2000 (shl64 k 3)) ≡ word k
unfolding memory
field_word k h =
    let at = plane_address 2000 k (omega arith) h in
    let same : memory (2000 + 8 * k) ≡ word k =
      let index : (2000 + 8 * k - 2000) / 8 ≡ k = omega arith in ground (arith, h, index) in
    rw at (below_stack (2000 + 8 * k) (omega (arith, h)) ∙ same)

pub const_word :
    (k : ℕ) → k < 64 → call.memory (add64 4000 (shl64 k 3)) ≡ get_or (planes_from 64 0 (pos 10)) k 0
unfolding memory
const_word k h =
    let at = plane_address 4000 k (omega arith) h in
    let same : memory (4000 + 8 * k) ≡ get_or (planes_from 64 0 (pos 10)) k 0 =
      let index : (4000 + 8 * k - 4000) / 8 ≡ k = omega arith in ground (arith, h, index) in
    rw at (below_stack (4000 + 8 * k) (omega (arith, h)) ∙ same)

pub a_planes : HoldsPlanes call 2000 values
a_planes = record {
  planes = λ k h. rw (field_word k h) (word-IsPlane k);
  planes_kept = λ k h.
      rw (plane_address 2000 k (omega arith) h) (not_scratch (2000 + 8 * k) (omega (arith, h)));
}
