-- ===== src/Jit/Scalar/Row.antt =====
-- The code of all nodes, on one row.
use apex_engine.Common.{
  ℕ, ◌+◌, ◌*◌, ◌<◌, ◌≤◌, ◌≡◌, ◌≢◌, refl, sym, ◌∙◌, ap, arith, List, some, length, get_elem?, Name,
}
use apex_engine.Word.{two64, add64, shl64}
use apex_engine.Arm64.{Cpu, exec}
use apex_engine.Arm64.Flow.{execs}
use apex_engine.Ir.{
  NodePool, NodeKind, Pointer, node_at, load, const, add, sub, gt, lt, and, or, not_, select, lsl,
  lsr,
}
use apex_engine.Ir
use apex_engine.Jit.Emit.{to_u64, c_string}
use apex_engine.Jit.Emit.Constants.{execs-emit_mov_imm64, to_u64-IsU64}
use apex_engine.Jit.Scalar.{byte_offset, find_operand, operand_code, get_operand}
use apex_engine.Jit.Scalar.Value.{Value, value_of_load, value_of_const}
use apex_engine.Jit.Scalar.Nodes.{Loaded, find_operand_lem, get_elem?-lt}

-- The call: the field arrays at `fa`, the scratchpad at `s`, of which the code writes `size` words,
-- and memory as the loop over the rows finds it.
pub record Call : Type 0 where
  pub fa : ℕ
  pub s : ℕ
  pub size : ℕ
  pub memory : ℕ → ℕ

-- An address that is not one of those words.
abbrev pub Untouched : Call → ℕ → Type 0
Untouched call a = (k : ℕ) → k < call.size → a ≢ call.s + 8 * k

-- The array of the field that load node `j` reads has the field's value in row `r`.
pub record FieldAt (p : NodePool) (call : Call) (r : ℕ) (field : Name → ℕ) (j : ℕ) : Type 0 where
  pub base : ℕ
  pub pointer : call.memory (add64 call.fa (byte_offset (node_at p j).field_idx)) ≡ base
  pub value : call.memory (add64 base (shl64 r 3)) ≡ field (c_string (node_at p j).field_name)
  pub pointer_kept : Untouched call (add64 call.fa (byte_offset (node_at p j).field_idx))
  pub value_kept : Untouched call (add64 base (shl64 r 3))

module _ (p : NodePool) (call : Call) (r : ℕ) (field : Name → ℕ) where
  -- The nodes `before` have been evaluated.
  pub record State (before : List ℕ) (c : Cpu) : Type 0 where
    pub arrays : c.reg 0 ≡ call.fa
    pub scratch : c.reg 1 ≡ call.s
    pub row : c.reg 20 ≡ r
    pub kept : (a : ℕ) → Untouched call a → c.mem a ≡ call.memory a
    pub values :
        (k j v : ℕ) → get_elem? before k ≡ some j → Value p field j v → c.mem (call.s + 8 * k) ≡ v

module _ {p : NodePool} {call : Call} {r : ℕ} {field : Name → ℕ} where
  pub State-Loaded :
      {before : List ℕ} {c d : Cpu} (out : ℕ)
      → out ≢ 0
      → out ≢ 1
      → out ≢ 20
      → Loaded out c d
      → State p call r field before c
      → State p call r field before d
  State-Loaded out h0 h1 h20 l st = record {
    arrays = l.others 0 (λ e. h0 (sym e)) (omega arith) ∙ st.arrays;
    scratch = l.others 1 (λ e. h1 (sym e)) (omega arith) ∙ st.scratch;
    row = l.others 20 (λ e. h20 (sym e)) (omega arith) ∙ st.row;
    kept = λ a u. ap (λ (m : ℕ → ℕ). m a) (l.same_mem) ∙ st.kept a u;
    values = λ k j v g w. ap (λ (m : ℕ → ℕ). m (call.s + 8 * k)) (l.same_mem) ∙ st.values k j v g w;
  }

module _ {p : NodePool} {call : Call} {r : ℕ} {field : Name → ℕ}
    (room : call.s + 8 * call.size ≤ two64) where
  module _ {before : List ℕ} {c : Cpu} (st : State p call r field before c) (out : ℕ)
      (o4 : out ≢ 31) (below : length before ≤ call.size) {j v : ℕ} (w : Value p field j v) where
    -- A node that has been evaluated, from the scratchpad.
    memory_value :
        (k : ℕ)
        → get_elem? before k ≡ some j
        → c.mem (add64 (c.reg 1) (find_operand j 0 before * 8)) ≡ v
    memory_value k g =
        let (m, e, h) = find_operand_lem j 0 before k g in
        let at : add64 (c.reg 1) (find_operand j 0 before * 8) ≡ call.s + 8 * m =
          unfold add64 in omega (arith, e, st.scratch, get_elem?-lt before m j h) in
        ap (c.mem) at ∙ st.values m j v h w

    pub load_value :
        (e : (node_at p j).kind ≡ load)
        → FieldAt p call r field j
        → (execs (operand_code before out load j (node_at p j)) c).reg out ≡ v
    unfolding operand_code execs exec
    load_value e f =
        let offset = byte_offset (node_at p j).field_idx in
        let pointer : c.mem (add64 (c.reg 0) offset) ≡ f.base =
          ap (λ (a : ℕ). c.mem (add64 a offset)) (st.arrays)
          ∙ st.kept (add64 call.fa offset) (f.pointer_kept)
          ∙ f.pointer in
        let element : c.mem (add64 f.base (shl64 (c.reg 20) 3)) ≡ v =
          ap (λ (a : ℕ). c.mem (add64 f.base (shl64 a 3))) (st.row)
          ∙ st.kept (add64 f.base (shl64 r 3)) (f.value_kept)
          ∙ f.value
          ∙ value_of_load e w in
        let same : (execs (operand_code before out load j (node_at p j)) c).reg out
            ≡ c.mem (add64 (c.mem (add64 (c.reg 0) offset)) (shl64 (c.reg 20) 3)) =
          ground arith in
        same ∙ ap (λ (b : ℕ). c.mem (add64 b (shl64 (c.reg 20) 3))) pointer ∙ element

    pub const_value :
        (node_at p j).kind ≡ const
        → (execs (operand_code before out const j (node_at p j)) c).reg out ≡ v
    unfolding operand_code
    const_value e =
        (execs-emit_mov_imm64 out (to_u64 (node_at p j).const_value) o4
          (to_u64-IsU64 (node_at p j).const_value) c).0
        ∙ value_of_const e w

    operand_value_at :
        (kind : NodeKind)
        → (node_at p j).kind ≡ kind
        → (k : ℕ) → get_elem? before k ≡ some j
        → ((node_at p j).kind ≡ load → FieldAt p call r field j)
        → (execs (operand_code before out kind j (node_at p j)) c).reg out ≡ v
    unfolding operand_code execs exec
    operand_value_at load e k g f = load_value e (f e)
    operand_value_at const e k g f = const_value e
    operand_value_at add e k g f = ground (arith, memory_value k g)
    operand_value_at sub e k g f = ground (arith, memory_value k g)
    operand_value_at gt e k g f = ground (arith, memory_value k g)
    operand_value_at lt e k g f = ground (arith, memory_value k g)
    operand_value_at Ir.eq e k g f = ground (arith, memory_value k g)
    operand_value_at and e k g f = ground (arith, memory_value k g)
    operand_value_at or e k g f = ground (arith, memory_value k g)
    operand_value_at not_ e k g f = ground (arith, memory_value k g)
    operand_value_at select e k g f = ground (arith, memory_value k g)
    operand_value_at lsl e k g f = ground (arith, memory_value k g)
    operand_value_at lsr e k g f = ground (arith, memory_value k g)

  -- An operand that has been evaluated comes into its register.
  pub operand_value :
      {before : List ℕ} {c : Cpu} (st : State p call r field before c) (out : ℕ)
      → out ≢ 31
      → length before ≤ call.size
      → {j v : ℕ} → Value p field j v
      → (k : ℕ) → get_elem? before k ≡ some j
      → ((node_at p j).kind ≡ load → FieldAt p call r field j)
      → (execs (get_operand before out p (some j)) c).reg out ≡ v
  unfolding get_operand
  operand_value st out h below {j} w k g f =
      operand_value_at st out h below w (node_at p j).kind refl k g f

-- The operand is null, or has been evaluated, as one of the nodes.
abbrev pub Evaluated : List ℕ → Pointer → Type 0
Evaluated before a = (j : ℕ) → a ≡ some j → (k : ℕ) × (get_elem? before k ≡ some j)
