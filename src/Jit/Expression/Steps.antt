-- ===== src/Jit/Expression/Steps.antt =====
-- The arithmetic of the kernel at one bit, node by node.
use apex_engine.Common.{
  ℕ, suc, ◌+◌, ◌*◌, ◌<◌, ◌≤◌, ◌≡◌, ◌≢◌, ◌∙◌, ap, arith, Bool, true, List, some, ltb, Name, pos,
  length, get_elem?, if◌then◌else◌,
}
use apex_engine.Word.{two64, IsU64}
use apex_engine.Word.Compare.{IsPlane}
use apex_engine.Arm64.{Cpu}
use apex_engine.Arm64.Flow.{execs}
use apex_engine.Ir.{NodePool, Pointer, node_at, add, sub}
use apex_engine.Jit.Scalar.Row.{Call}
use apex_engine.Jit.Expression.{is_carried, carry_register, get_bit}
use apex_engine.Jit.Expression.Columns.{Column}
use apex_engine.Jit.Expression.Operands.{Fetched, get_bit-Fetched, IsOperand, AtBit, get_bit_value}
use apex_engine.Jit.Expression.Sums.{IsCarry, no_carry, one_carry, complement}

-- The bits that slot `m` holds when the first `n` nodes have been through bit `b`.
abbrev pub level : (n b m : ℕ) → ℕ
level n b m = if ltb m n then suc b else b

-- The columns whose bits node `i` adds up, and the carry into bit 0.
pub data Sums (p : NodePool) (field : ℕ → Name → ℕ) : ℕ → (ℕ → Bool) → (x y : ℕ → ℕ) → Type 0 where
  adds :
      {i a b : ℕ} {x y : ℕ → ℕ}
      → (node_at p i).kind ≡ add
      → (node_at p i).left ≡ some a
      → (node_at p i).right ≡ some b
      → Column p field a x
      → Column p field b y
      → Sums p field i no_carry x y
  subtracts :
      {i a b : ℕ} {x y : ℕ → ℕ}
      → (node_at p i).kind ≡ sub
      → (node_at p i).left ≡ some a
      → (node_at p i).right ≡ some b
      → Column p field a x
      → Column p field b y
      → Sums p field i one_carry x (complement y)

-- The numbers that the compiler gave to a sum or difference, number `m` of the nodes.
pub record IsNumbered (constants : List (ℕ × ℕ)) (p : NodePool) (field : ℕ → Name → ℕ) (call : Call)
    (nodes : List ℕ) (m i : ℕ) : Type 0 where
  pub slot : (node_at p i).slot_id ≡ pos m
  pub carry : (k : ℕ) × (k < 8) × ((node_at p i).carry_reg ≡ pos k)
  pub left : (j : ℕ) → (node_at p i).left ≡ some j → IsOperand constants p field call nodes m j
  pub right : (j : ℕ) → (node_at p i).right ≡ some j → IsOperand constants p field call nodes m j

-- All of them, with a carry register each.
pub record AreNumbered (constants : List (ℕ × ℕ)) (p : NodePool) (field : ℕ → Name → ℕ)
    (call : Call) (nodes : List ℕ) : Type 0 where
  pub room : call.s + 8 * call.size ≤ two64
  pub slots : 64 * length nodes ≤ call.size
  pub words : (r : ℕ) (name : Name) → IsU64 (field r name)
  pub numbered :
      (m i : ℕ)
      → get_elem? nodes m ≡ some i
      → is_carried (node_at p i).kind ≡ true
      → IsNumbered constants p field call nodes m i
  pub apart :
      (m n i j : ℕ)
      → m ≢ n
      → get_elem? nodes m ≡ some i
      → get_elem? nodes n ≡ some j
      → is_carried (node_at p i).kind ≡ true
      → is_carried (node_at p j).kind ≡ true
      → carry_register (node_at p i).carry_reg ≢ carry_register (node_at p j).carry_reg

-- The first `n` nodes have been through bit `b`, the others wait for it.
pub record AtNode (p : NodePool) (field : ℕ → Name → ℕ) (call : Call) (nodes : List ℕ) (sp b n : ℕ)
    (c : Cpu) : Type 0 where
  pub at : AtBit p field call nodes (level n b) b c
  pub carries :
      (m i : ℕ) (start : ℕ → Bool) (x y : ℕ → ℕ)
      → get_elem? nodes m ≡ some i
      → Sums p field i start x y
      → IsCarry start x y (level n b m) (c.reg (carry_register (node_at p i).carry_reg))
  pub same_sp : c.sp ≡ sp

-- A node whose bits are added up is a sum or a difference.
pub Sums-carried :
    {p : NodePool} {field : ℕ → Name → ℕ} {i : ℕ} {start : ℕ → Bool} {x y : ℕ → ℕ}
    → Sums p field i start x y
    → is_carried (node_at p i).kind ≡ true
unfolding is_carried
Sums-carried (adds e l r u v) = ap is_carried e
Sums-carried (subtracts e l r u v) = ap is_carried e

-- The operands' planes of bit `b`, behind the code that loads them.
pub record Ready (p : NodePool) (field : ℕ → Name → ℕ) (b i : ℕ) (c d : Cpu) : Type 0 where
  pub left :
      (j : ℕ) (x : ℕ → ℕ) → (node_at p i).left ≡ some j → Column p field j x → IsPlane b x (d.reg 2)
  pub right :
      (j : ℕ) (y : ℕ → ℕ)
      → (node_at p i).right ≡ some j
      → Column p field j y
      → IsPlane b y (d.reg 3)
  pub others : (z : ℕ) → z ≢ 2 → z ≢ 3 → z ≢ 4 → z ≢ 14 → d.reg z ≡ c.reg z
  pub same_mem : d.mem ≡ c.mem
  pub same_sp : d.sp ≡ c.sp

AtBit-Fetched :
    {p : NodePool} {field : ℕ → Name → ℕ} {call : Call} {nodes : List ℕ} {limit : ℕ → ℕ} {b : ℕ}
    {c d : Cpu} (out : ℕ)
    → out ≤ 3
    → Fetched out c d
    → AtBit p field call nodes limit b c
    → AtBit p field call nodes limit b d
AtBit-Fetched {call} out low f at = record {
  arrays = f.others 19 (omega arith) (omega arith) (omega arith) ∙ at.arrays;
  scratch = f.others 20 (omega arith) (omega arith) (omega arith) ∙ at.scratch;
  bit = f.others 15 (omega arith) (omega arith) (omega arith) ∙ at.bit;
  kept = λ a u. ap (λ (m : ℕ → ℕ). m a) (f.same_mem) ∙ at.kept a u;
  stored = λ m i k v g t below h w. rw (f.same_mem) (at.stored m i k v g t below h w);
}

module _ {constants : List (ℕ × ℕ)} {p : NodePool} {field : ℕ → Name → ℕ} {call : Call}
    {nodes : List ℕ} {limit : ℕ → ℕ} {m b : ℕ} (room : call.s + 8 * call.size ≤ two64)
    (slots : 64 * length nodes ≤ call.size) (in_word : b < 64)
    (done : (k : ℕ) → k < m → b < limit k) where
  pointer_bit :
      {c : Cpu} (at : AtBit p field call nodes limit b c) (out : ℕ)
      → out ≤ 3
      → (q : Pointer) (j : ℕ) → q ≡ some j
      → IsOperand constants p field call nodes m j
      → (v : ℕ → ℕ) → Column p field j v
      → IsPlane b v ((execs (get_bit constants out p q) c).reg out)
  pointer_bit at out low q j e o v w = rw e (get_bit_value at room slots in_word out low done j o w)

  -- Both operands are loaded.
  pub operands-Ready :
      (i : ℕ) (c : Cpu)
      → AtBit p field call nodes limit b c
      → ((j : ℕ) → (node_at p i).left ≡ some j → IsOperand constants p field call nodes m j)
      → ((j : ℕ) → (node_at p i).right ≡ some j → IsOperand constants p field call nodes m j)
      → Ready p field b i c (
          execs
            (get_bit constants 3 p (node_at p i).right)
            (execs (get_bit constants 2 p (node_at p i).left) c))
  operands-Ready i c at l r =
      let c1 = execs (get_bit constants 2 p (node_at p i).left) c in
      let f1 = get_bit-Fetched constants 2 p (node_at p i).left c in
      let f2 = get_bit-Fetched constants 3 p (node_at p i).right c1 in
      let at1 = AtBit-Fetched 2 (omega arith) f1 at in
      record {
        left = λ j x e w.
            rw (f2.others 2 (omega arith) (omega arith) (omega arith))
              (pointer_bit at 2 (omega arith) (node_at p i).left j e (l j e) x w);
        right = λ j y e w. pointer_bit at1 3 (omega arith) (node_at p i).right j e (r j e) y w;
        others = λ z h2 h3 h4 h14. f2.others z h3 h4 h14 ∙ f1.others z h2 h4 h14;
        same_mem = f2.same_mem ∙ f1.same_mem;
        same_sp = f2.same_sp ∙ f1.same_sp;
      }
