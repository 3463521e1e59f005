-- ===== src/Jit/Expression/Operands.antt =====
-- An operand's bit, for all rows, as the code of the kernel loads it.
use apex_engine.Common.{
  ℕ, ◌+◌, ◌*◌, ◌<◌, ◌≤◌, ◌≡◌, ◌≢◌, refl, ◌∙◌, ap, arith, true, List, [], ◌∷◌, none, some, get_elem?,
  Name, pos, length,
}
use apex_engine.Word.{two64, add64, shl64, IsU64}
use apex_engine.Word.Compare.{IsPlane}
use apex_engine.Arm64
use apex_engine.Arm64.{Cpu, Instr, exec, lsl_imm, ldr_index, ldr_offset}
use apex_engine.Arm64.Flow.{execs, execs-append}
use apex_engine.Ir.{
  Node, NodePool, NodeKind, Pointer, node_at, bitplane, load, const, add, sub, gt, lt, and, or,
  not_, select, lsl, lsr,
}
use apex_engine.Ir
use apex_engine.Jit.Emit.{emit_mov_imm64}
use apex_engine.Jit.Emit.Constants.{execs-emit_mov_imm64, execs-emit_mov_imm64_other}
use apex_engine.Jit.Scalar.{byte_offset}
use apex_engine.Jit.Scalar.Row.{Call, Untouched}
use apex_engine.Jit.Scalar.Nodes.{get_elem?-lt}
use apex_engine.Jit.Expression.{
  planes_of, is_carried, is_slot, is_bitplane, slot_offset, slot_code, bit_code, get_bit,
}
use apex_engine.Jit.Expression.Columns.{
  Column, field_column, const_column, sum_column, difference_column,
}

-- Code that changes register `out`, x4 and x14 alone.
pub record Fetched (out : ℕ) (c d : Cpu) : Type 0 where
  pub others : (x : ℕ) → x ≢ out → x ≢ 4 → x ≢ 14 → d.reg x ≡ c.reg x
  pub same_mem : d.mem ≡ c.mem
  pub same_sp : d.sp ≡ c.sp

-- The slots' planes: an `if` in the emitted code.
slot-Fetched : (out : ℕ) (n : Node) (c : Cpu) → Fetched out c (execs (slot_code out n) c)
unfolding slot_code execs exec
slot-Fetched out n c = record {
  others = λ x h k l. ground arith;
  same_mem = ground arith;
  same_sp = ground arith;
}

module _ (constants : List (ℕ × ℕ)) where
  bit-Fetched :
      (out : ℕ) (kind : NodeKind) (j : ℕ) (n : Node) (c : Cpu)
      → Fetched out c (execs (bit_code constants out kind j n) c)
  unfolding bit_code execs exec emit_mov_imm64
  bit-Fetched out load j n c = record {
    others = λ x h k l. ground arith;
    same_mem = refl;
    same_sp = refl;
  }
  bit-Fetched out const j n c = record {
    others = λ x h k l. ground arith;
    same_mem = refl;
    same_sp = refl;
  }
  bit-Fetched out add j n c = slot-Fetched out n c
  bit-Fetched out sub j n c = slot-Fetched out n c
  bit-Fetched out gt j n c = slot-Fetched out n c
  bit-Fetched out lt j n c = slot-Fetched out n c
  bit-Fetched out Ir.eq j n c = slot-Fetched out n c
  bit-Fetched out and j n c = slot-Fetched out n c
  bit-Fetched out or j n c = slot-Fetched out n c
  bit-Fetched out not_ j n c = slot-Fetched out n c
  bit-Fetched out select j n c = slot-Fetched out n c
  bit-Fetched out lsl j n c = slot-Fetched out n c
  bit-Fetched out lsr j n c = slot-Fetched out n c

  pub get_bit-Fetched :
      (out : ℕ) (p : NodePool) (q : Pointer) (c : Cpu)
      → Fetched out c (execs (get_bit constants out p q) c)
  unfolding get_bit execs
  get_bit-Fetched out p none c = record {
    others = λ x h k l. refl;
    same_mem = refl;
    same_sp = refl;
  }
  get_bit-Fetched out p (some j) c = bit-Fetched out (node_at p j).kind j (node_at p j) c

-- The 64 words from `base` on are the planes of `v`, outside the scratchpad.
pub record HoldsPlanes (call : Call) (base : ℕ) (v : ℕ → ℕ) : Type 0 where
  pub planes : (k : ℕ) → k < 64 → IsPlane k v (call.memory (add64 base (shl64 k 3)))
  pub planes_kept : (k : ℕ) → k < 64 → Untouched call (add64 base (shl64 k 3))

-- The pointer to the planes of the field that a load node reads.
pub record FieldPlanes (p : NodePool) (call : Call) (j : ℕ) (v : ℕ → ℕ) : Type 0 where
  pub base : ℕ
  pub pointer : call.memory (add64 call.fa (byte_offset (node_at p j).field_idx)) ≡ base
  pub pointer_kept : Untouched call (add64 call.fa (byte_offset (node_at p j).field_idx))
  pub holds : HoldsPlanes call base v

-- Node `j` as an operand: the planes of a field or a constant are there, and a sum or a difference
-- has one of the first `m` slots, the one with its place in `nodes`.
pub record IsOperand (constants : List (ℕ × ℕ)) (p : NodePool) (field : ℕ → Name → ℕ) (call : Call)
    (nodes : List ℕ) (m j : ℕ) : Type 0 where
  pub fields : (v : ℕ → ℕ) → (node_at p j).kind ≡ load → Column p field j v → FieldPlanes p call j v
  pub const_address : (node_at p j).kind ≡ const → IsU64 (planes_of j constants)
  pub consts :
      (v : ℕ → ℕ)
      → (node_at p j).kind ≡ const
      → Column p field j v
      → HoldsPlanes call (planes_of j constants) v
  pub slot :
      is_carried (node_at p j).kind ≡ true
      → (k : ℕ) × (k < m)
        × (get_elem? nodes k ≡ some j)
        × ((node_at p j).slot_id ≡ pos k)
        × ((node_at p j).result_kind ≡ bitplane)

-- At bit `b`, with what the scratchpad's planes hold up to a limit for each slot.
pub record AtBit (p : NodePool) (field : ℕ → Name → ℕ) (call : Call) (nodes : List ℕ)
    (limit : ℕ → ℕ) (b : ℕ) (c : Cpu) : Type 0 where
  pub arrays : c.reg 19 ≡ call.fa
  pub scratch : c.reg 20 ≡ call.s
  pub bit : c.reg 15 ≡ b
  pub kept : (a : ℕ) → Untouched call a → c.mem a ≡ call.memory a
  pub stored :
      (m i k : ℕ) (v : ℕ → ℕ)
      → get_elem? nodes m ≡ some i
      → is_carried (node_at p i).kind ≡ true
      → k < limit m
      → k < 64
      → Column p field i v
      → IsPlane k v (c.mem (call.s + 512 * m + 8 * k))

module _ {p : NodePool} {field : ℕ → Name → ℕ} {call : Call} {nodes : List ℕ} {limit : ℕ → ℕ}
    {b : ℕ} {c : Cpu} (at : AtBit p field call nodes limit b c)
    (room : call.s + 8 * call.size ≤ two64) (slots : 64 * length nodes ≤ call.size)
    (in_word : b < 64) (out : ℕ) (low : out ≤ 3) where
  -- The planes at an address outside the scratchpad.
  held :
      {base : ℕ} {v : ℕ → ℕ}
      → HoldsPlanes call base v
      → IsPlane b v (c.mem (add64 base (shl64 (c.reg 15) 3)))
  held {base} {v} h =
      let same : c.mem (add64 base (shl64 (c.reg 15) 3)) ≡ call.memory (add64 base (shl64 b 3)) =
        ap (λ (t : ℕ). c.mem (add64 base (shl64 t 3))) (at.bit)
        ∙ at.kept (add64 base (shl64 b 3)) (h.planes_kept b in_word) in
      rw same (h.planes b in_word)

  field_bit :
      (constants : List (ℕ × ℕ)) (j : ℕ) {v : ℕ → ℕ}
      → FieldPlanes p call j v
      → IsPlane b v ((execs (bit_code constants out load j (node_at p j)) c).reg out)
  unfolding bit_code execs exec
  field_bit constants j {v} f =
      let offset = byte_offset (node_at p j).field_idx in
      let pointer : c.mem (add64 (c.reg 19) offset) ≡ f.base =
        ap (λ (a : ℕ). c.mem (add64 a offset)) (at.arrays)
        ∙ at.kept (add64 call.fa offset) (f.pointer_kept)
        ∙ f.pointer in
      let same : (execs (bit_code constants out load j (node_at p j)) c).reg out
          ≡ c.mem (add64 (c.mem (add64 (c.reg 19) offset)) (shl64 (c.reg 15) 3)) =
        ground (arith, low) in
      rw (same, pointer) (held (f.holds))

  const_bit :
      (constants : List (ℕ × ℕ)) (j : ℕ) {v : ℕ → ℕ}
      → IsU64 (planes_of j constants)
      → HoldsPlanes call (planes_of j constants) v
      → IsPlane b v ((execs (bit_code constants out const j (node_at p j)) c).reg out)
  unfolding bit_code
  const_bit constants j {v} small h =
      let address = planes_of j constants in
      let c1 = execs (emit_mov_imm64 4 address) c in
      let (base, mem, sp) = execs-emit_mov_imm64 4 address (omega arith) small c in
      let bit : c1.reg 15 ≡ c.reg 15 = execs-emit_mov_imm64_other 4 address c 15 (omega arith) in
      let rest : List Instr = lsl_imm 14 15 3 ∷ ldr_index out 4 14 ∷ [] in
      let value : (execs rest c1).reg out ≡ c1.mem (add64 (c1.reg 4) (shl64 (c1.reg 15) 3)) =
        unfold execs exec in ground (arith, low) in
      rw (execs-append (emit_mov_imm64 4 address) rest c, value, base, mem, bit) (held h)

  slot_bit :
      (j k : ℕ) {v : ℕ → ℕ}
      → get_elem? nodes k ≡ some j
      → is_carried (node_at p j).kind ≡ true
      → k < length nodes
      → (node_at p j).slot_id ≡ pos k
      → (node_at p j).result_kind ≡ bitplane
      → b < limit k
      → Column p field j v
      → IsPlane b v ((execs (slot_code out (node_at p j)) c).reg out)
  unfolding slot_code is_bitplane is_slot slot_offset
  slot_bit j k {v} g carried below id kind done w =
      let rest : List Instr =
        lsl_imm 14 15 3 ∷ Arm64.add_imm 14 14 (512 * k) ∷ ldr_index out 20 14 ∷ [] in
      let code : slot_code out (node_at p j) ≡ rest = rw (slot_code, id, kind) refl in
      let address : add64 (c.reg 20) (add64 (shl64 (c.reg 15) 3) (512 * k))
          ≡ call.s + 512 * k + 8 * b =
        unfold add64 shl64 in omega (arith, at.scratch, at.bit) in
      let value : (execs rest c).reg out
          ≡ c.mem (add64 (c.reg 20) (add64 (shl64 (c.reg 15) 3) (512 * k))) =
        unfold execs exec in ground (arith, low) in
      rw (code, value, address) (at.stored k j b v g carried done in_word w)

  module _ {constants : List (ℕ × ℕ)} {m : ℕ} (done : (k : ℕ) → k < m → b < limit k) where
    carried_bit :
        (j : ℕ) {v : ℕ → ℕ} (kind : NodeKind)
        → is_carried kind ≡ true
        → (node_at p j).kind ≡ kind
        → IsOperand constants p field call nodes m j
        → Column p field j v
        → IsPlane b v ((execs (slot_code out (node_at p j)) c).reg out)
    carried_bit j kind carried e o w =
        let is_sum = ap is_carried e ∙ carried in
        let (k, below, g, id, result) = o.slot is_sum in
        slot_bit j k g is_sum (get_elem?-lt nodes k j g) id result (done k below) w

    -- The operand's bit comes into the register.
    pub get_bit_value :
        (j : ℕ) {v : ℕ → ℕ}
        → IsOperand constants p field call nodes m j
        → Column p field j v
        → IsPlane b v ((execs (get_bit constants out p (some j)) c).reg out)
    unfolding get_bit bit_code is_carried
    get_bit_value j o (field_column e) =
        rw e (field_bit constants j (o.fields _ e (field_column e)))
    get_bit_value j o (const_column e) =
        rw e (const_bit constants j (o.const_address e) (o.consts _ e (const_column e)))
    get_bit_value j o (sum_column e l q x y) =
        rw e (carried_bit j add refl e o (sum_column e l q x y))
    get_bit_value j o (difference_column e l q x y) =
        rw e (carried_bit j sub refl e o (difference_column e l q x y))
