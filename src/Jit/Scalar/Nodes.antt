-- ===== src/Jit/Scalar/Nodes.antt =====
-- The code of one node, on one row.
use apex_engine.Common.{
  ℕ, zero, suc, ◌+◌, ◌<◌, ◌≡◌, ◌≢◌, refl, ap, arith, List, [], ◌∷◌, none, some, length, get_elem?,
  ℕ_discrete,
}
use apex_engine.Arm64.{Cpu, exec, ldr_offset, holds}
use apex_engine.Arm64.Flow.{execs}
use apex_engine.Ir.{
  Node, NodePool, NodeKind, Pointer, node_at, load, const, add, sub, gt, lt, and, or, not_, select,
  lsl, lsr,
}
use apex_engine.Ir
use apex_engine.Jit.Emit.{to_u64, emit_mov_imm64}
use apex_engine.Jit.Emit.Constants.{execs-emit_mov_imm64_other}
use apex_engine.Jit.Scalar.{find_operand, operand_code, get_operand, node_switch}
use apex_engine.Jit.Scalar.Value.{operation}

-- Code that loads register `out` and may change x4, and nothing else but the flags.
pub record Loaded (out : ℕ) (c d : Cpu) : Type 0 where
  pub others : (x : ℕ) → x ≢ out → x ≢ 4 → d.reg x ≡ c.reg x
  pub same_mem : d.mem ≡ c.mem
  pub same_sp : d.sp ≡ c.sp

pub memory-Loaded : (out i : ℕ) (c : Cpu) → Loaded out c (execs (ldr_offset out 1 i ∷ []) c)
unfolding execs exec
memory-Loaded out i c = record { others = λ x h k. ground arith; same_mem = refl; same_sp = refl }

pub operand-Loaded :
    (before : List ℕ) (out : ℕ) (kind : NodeKind) (j : ℕ) (n : Node) (c : Cpu)
    → Loaded out c (execs (operand_code before out kind j n) c)
unfolding operand_code execs exec emit_mov_imm64
operand-Loaded before out load j n c = record {
  others = λ x h k. ground arith;
  same_mem = refl;
  same_sp = refl;
}
operand-Loaded before out const j n c = record {
  others = λ x h k. execs-emit_mov_imm64_other out (to_u64 n.const_value) c x h;
  same_mem = refl;
  same_sp = refl;
}
operand-Loaded before out add j n c = memory-Loaded out _ c
operand-Loaded before out sub j n c = memory-Loaded out _ c
operand-Loaded before out gt j n c = memory-Loaded out _ c
operand-Loaded before out lt j n c = memory-Loaded out _ c
operand-Loaded before out Ir.eq j n c = memory-Loaded out _ c
operand-Loaded before out and j n c = memory-Loaded out _ c
operand-Loaded before out or j n c = memory-Loaded out _ c
operand-Loaded before out not_ j n c = memory-Loaded out _ c
operand-Loaded before out select j n c = memory-Loaded out _ c
operand-Loaded before out lsl j n c = memory-Loaded out _ c
operand-Loaded before out lsr j n c = memory-Loaded out _ c

pub get_operand-Loaded :
    (before : List ℕ) (out : ℕ) (p : NodePool) (a : Pointer) (c : Cpu)
    → Loaded out c (execs (get_operand before out p a) c)
unfolding get_operand execs
get_operand-Loaded before out p none c = record {
  others = λ x h k. refl;
  same_mem = refl;
  same_sp = refl;
}
get_operand-Loaded before out p (some j) c =
    operand-Loaded before out (node_at p j).kind j (node_at p j) c

pub find_operand_lem :
    (j n : ℕ) (xs : List ℕ) (k : ℕ)
    → get_elem? xs k ≡ some j
    → (m : ℕ) × (find_operand j n xs ≡ n + m) × (get_elem? xs m ≡ some j)
unfolding find_operand
find_operand_lem j n [] k h = absurd (cc h)
find_operand_lem j n (x ∷ xs) zero h = (0, ground arith, h)
find_operand_lem j n (x ∷ xs) (suc k) h = elim (ℕ_discrete x j) [
  | yes here ↦ (0, ground arith, ap some here)
  | no there ↦ let (m, e, g) = find_operand_lem j (n + 1) xs k h in (suc m, ground (arith, e), g)
]

pub get_elem?-lt : (xs : List ℕ) (k j : ℕ) → get_elem? xs k ≡ some j → k < length xs
get_elem?-lt [] k j h = absurd (cc h)
get_elem?-lt (x ∷ xs) zero j h = omega arith
get_elem?-lt (x ∷ xs) (suc k) j h = omega (arith, get_elem?-lt xs k j h)

pub switch-Loaded :
    (p : NodePool) (before : List ℕ) (i : ℕ) (kind : NodeKind) (c : Cpu)
    → Loaded 5 c (execs (node_switch p before i kind) c)
unfolding node_switch execs exec
switch-Loaded p before i load c = get_operand-Loaded before 5 p (some i) c
switch-Loaded p before i const c = get_operand-Loaded before 5 p (some i) c
switch-Loaded p before i add c = record {
  others = λ x h k. ground arith;
  same_mem = refl;
  same_sp = refl;
}
switch-Loaded p before i sub c = record {
  others = λ x h k. ground arith;
  same_mem = refl;
  same_sp = refl;
}
switch-Loaded p before i gt c = record {
  others = λ x h k. ground arith;
  same_mem = refl;
  same_sp = refl;
}
switch-Loaded p before i lt c = record {
  others = λ x h k. ground arith;
  same_mem = refl;
  same_sp = refl;
}
switch-Loaded p before i Ir.eq c = record {
  others = λ x h k. ground arith;
  same_mem = refl;
  same_sp = refl;
}
switch-Loaded p before i and c = record {
  others = λ x h k. ground arith;
  same_mem = refl;
  same_sp = refl;
}
switch-Loaded p before i or c = record {
  others = λ x h k. ground arith;
  same_mem = refl;
  same_sp = refl;
}
switch-Loaded p before i not_ c = record { others = λ x h k. refl; same_mem = refl; same_sp = refl }
switch-Loaded p before i select c = record {
  others = λ x h k. refl;
  same_mem = refl;
  same_sp = refl;
}
switch-Loaded p before i lsl c = record { others = λ x h k. refl; same_mem = refl; same_sp = refl }
switch-Loaded p before i lsr c = record { others = λ x h k. refl; same_mem = refl; same_sp = refl }

-- The operation, on the operands in x2 and x3.
pub switch_value :
    (p : NodePool) (before : List ℕ) (i : ℕ) (kind : NodeKind) (c : Cpu) {x y v : ℕ}
    → operation kind x y ≡ some v
    → c.reg 2 ≡ x
    → c.reg 3 ≡ y
    → (execs (node_switch p before i kind) c).reg 5 ≡ v
unfolding node_switch execs exec holds
switch_value p before i load c h a b = cc h
switch_value p before i const c h a b = cc h
switch_value p before i add c h a b = ground (arith, h)
switch_value p before i sub c h a b = ground (arith, h)
switch_value p before i gt c h a b = ground (arith, h)
switch_value p before i lt c h a b = ground (arith, h)
switch_value p before i Ir.eq c h a b = ground (arith, h)
switch_value p before i and c h a b = ground (arith, h)
switch_value p before i or c h a b = ground (arith, h)
switch_value p before i not_ c h a b = cc h
switch_value p before i select c h a b = cc h
switch_value p before i lsl c h a b = cc h
switch_value p before i lsr c h a b = cc h
