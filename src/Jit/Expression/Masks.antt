-- ===== src/Jit/Expression/Masks.antt =====
-- The kernel's comparisons at one bit.
use apex_engine.Common.{
  ℕ, suc, ◌+◌, ◌*◌, ◌<◌, ◌≤◌, ◌≡◌, ◌≢◌, refl, ◌∙◌, ap, arith, Bool, true, false, List, [], ◌++◌,
  some, ltb, Name, length, get_elem?, if◌then◌else◌, ◌⊎◌, inl, inr,
}
use apex_engine.Word.Compare.{IsPlane, IsCompared}
use apex_engine.Arm64.{Cpu, Instr, exec, run}
use apex_engine.Arm64.Flow.{execs, execs-append}
use apex_engine.Circuit.{emit_gt_64}
use apex_engine.Circuit.Laws.{AreGtRegs, emit_gt_64-compares, emit_gt_64-mem, emit_gt_64-other}
use apex_engine.Ir.{NodePool, NodeKind, node_at, gt, lt}
use apex_engine.Jit.Scalar.Row.{Call}
use apex_engine.Jit.Expression.{comparison_switch}
use apex_engine.Jit.Expression.Columns.{Compares, greater, less}
use apex_engine.Jit.Expression.Operands.{IsOperand, AtBit}
use apex_engine.Jit.Expression.Steps.{Ready}

-- The scratchpad's planes are complete, and comparison `m` has masks for the bits from `low m` on.
pub record AtMask (p : NodePool) (field : ℕ → Name → ℕ) (call : Call) (nodes comparisons : List ℕ)
    (sp b : ℕ) (low : ℕ → ℕ) (c : Cpu) : Type 0 where
  pub at : AtBit p field call nodes (λ m. 64) b c
  pub masks :
      (m i : ℕ) (x y : ℕ → ℕ)
      → m < 3
      → get_elem? comparisons m ≡ some i
      → Compares p field i x y
      → IsCompared (low m) x y (c.reg (8 + 2 * m)) (c.reg (9 + 2 * m))
  pub same_sp : c.sp ≡ sp

-- The operands of the comparisons have planes.
pub record AreComparable (constants : List (ℕ × ℕ)) (p : NodePool) (field : ℕ → Name → ℕ)
    (call : Call) (nodes comparisons : List ℕ) : Type 0 where
  pub left :
      (m i j : ℕ)
      → get_elem? comparisons m ≡ some i
      → (node_at p i).left ≡ some j
      → IsOperand constants p field call nodes (length nodes) j
  pub right :
      (m i j : ℕ)
      → get_elem? comparisons m ≡ some i
      → (node_at p i).right ≡ some j
      → IsOperand constants p field call nodes (length nodes) j

-- `n` comparisons have been through bit `b`.
abbrev pub seen : (n b m : ℕ) → ℕ
seen n b m = if ltb m n then b else suc b

unfoldable pub is_ordered : NodeKind → Bool
is_ordered gt = true
is_ordered lt = true
is_ordered kind = false

pub ordered_cases : (kind : NodeKind) → (kind ≡ gt) ⊎ ((kind ≡ lt) ⊎ (is_ordered kind ≡ false))
unfolding is_ordered
ordered_cases gt = inl refl
ordered_cases lt = inr (inl refl)
ordered_cases kind = inr (inr refl)

pub no_code :
    (constants : List (ℕ × ℕ)) (p : NodePool) (kind : NodeKind) (k i : ℕ)
    → is_ordered kind ≡ false
    → comparison_switch constants p kind k (node_at p i) ≡ []
unfolding is_ordered comparison_switch
no_code constants p gt k i h = absurd (cc h)
no_code constants p lt k i h = absurd (cc h)
no_code constants p kind k i h = refl

pub Compares-ordered :
    {p : NodePool} {field : ℕ → Name → ℕ} {i : ℕ} {x y : ℕ → ℕ}
    → Compares p field i x y
    → is_ordered (node_at p i).kind ≡ true
unfolding is_ordered
Compares-ordered (greater e l r u v) = ap is_ordered e
Compares-ordered (less e l r u v) = ap is_ordered e

pub execs-run : (x y g e : ℕ) (c : Cpu) → execs (emit_gt_64 x y g e) c ≡ run (emit_gt_64 x y g e) c
unfolding execs run emit_gt_64
execs-run x y g e c = refl

run_sp : (x y g e : ℕ) (c : Cpu) → (run (emit_gt_64 x y g e) c).sp ≡ c.sp
unfolding run exec emit_gt_64
run_sp x y g e c = refl

pub execs_three :
    (l r s : List Instr) (c : Cpu) → execs (l ++ (r ++ s)) c ≡ execs s (execs r (execs l c))
execs_three l r s c = execs-append l (r ++ s) c ∙ execs-append r s (execs l c)

-- One comparison's masks have seen the bit, and the rest is as it was.
pub record Step (p : NodePool) (field : ℕ → Name → ℕ) (b n i : ℕ) (c d : Cpu) : Type 0 where
  pub next :
      (x y : ℕ → ℕ)
      → Compares p field i x y
      → IsCompared (suc b) x y (c.reg (8 + 2 * n)) (c.reg (9 + 2 * n))
      → IsCompared b x y (d.reg (8 + 2 * n)) (d.reg (9 + 2 * n))
  pub others : (z : ℕ) → 8 ≤ z → z ≢ 14 → z ≢ 8 + 2 * n → z ≢ 9 + 2 * n → d.reg z ≡ c.reg z
  pub same_mem : d.mem ≡ c.mem
  pub same_sp : d.sp ≡ c.sp

module _ {p : NodePool} {field : ℕ → Name → ℕ} {b n i : ℕ} (small : n < 3) {c d : Cpu}
    (ready : Ready p field b i c d) where
  pub masks_before :
      {x y : ℕ → ℕ} {l : ℕ}
      → IsCompared l x y (c.reg (8 + 2 * n)) (c.reg (9 + 2 * n))
      → IsCompared l x y (d.reg (8 + 2 * n)) (d.reg (9 + 2 * n))
  masks_before m =
      let one : d.reg (8 + 2 * n) ≡ c.reg (8 + 2 * n) =
        ready.others (8 + 2 * n) (omega arith) (omega arith) (omega arith) (omega (arith, small)) in
      let two : d.reg (9 + 2 * n) ≡ c.reg (9 + 2 * n) =
        ready.others (9 + 2 * n) (omega arith) (omega arith) (omega arith) (omega (arith, small)) in
      rw (one, two) m

  module _ (x y : ℕ) (ok : AreGtRegs x y (8 + 2 * n) (9 + 2 * n)) where
    pub gt_others :
        let e = run (emit_gt_64 x y (8 + 2 * n) (9 + 2 * n)) d in
        (z : ℕ) → 8 ≤ z → z ≢ 14 → z ≢ 8 + 2 * n → z ≢ 9 + 2 * n → e.reg z ≡ c.reg z
    gt_others z h h14 hg he =
        emit_gt_64-other x y (8 + 2 * n) (9 + 2 * n) ok d z (omega (arith, h)) (omega (arith, h)) hg
          he
        ∙ ready.others z (omega (arith, h)) (omega (arith, h)) (omega (arith, h)) h14

    pub gt_mem : (run (emit_gt_64 x y (8 + 2 * n) (9 + 2 * n)) d).mem ≡ c.mem
    gt_mem = emit_gt_64-mem x y (8 + 2 * n) (9 + 2 * n) ok d ∙ ready.same_mem

    pub gt_sp : (run (emit_gt_64 x y (8 + 2 * n) (9 + 2 * n)) d).sp ≡ c.sp
    gt_sp = run_sp x y (8 + 2 * n) (9 + 2 * n) d ∙ ready.same_sp

    pub gt_masks :
        {u v : ℕ → ℕ}
        → IsCompared (suc b) u v (d.reg (8 + 2 * n)) (d.reg (9 + 2 * n))
        → IsPlane b u (d.reg x)
        → IsPlane b v (d.reg y)
        → let e = run (emit_gt_64 x y (8 + 2 * n) (9 + 2 * n)) d in
          IsCompared b u v (e.reg (8 + 2 * n)) (e.reg (9 + 2 * n))
    gt_masks m p q =
        (emit_gt_64-compares x y (8 + 2 * n) (9 + 2 * n) ok d m p q 0 (omega arith) (omega arith)
          (omega arith) (omega arith)).0
