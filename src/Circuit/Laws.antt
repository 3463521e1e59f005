-- ===== src/Circuit/Laws.antt =====
-- What the circuits compute, on registers that do not overlap their scratch registers.
use Prim.Native.Nat.{bit_and, bit_or}
use apex_engine.Common.{ℕ, suc, ◌<◌, ◌≡◌, refl, ◌∙◌, ap, arith, if◌then◌else◌, ◌≢◌}
use apex_engine.Word.{test_bit, not64}
use apex_engine.Word.Bitwise.{test_bit-bit_and, test_bit-bit_or}
use apex_engine.Word.Shift.{test_bit-not64}
use apex_engine.Word.Compare.{gt_after, eq_after, IsCompared, IsPlane, IsCompared-step}
use apex_engine.Arm64.{Cpu, exec, run}
use apex_engine.Circuit.{emit_gt_64, emit_mux}

-- The registers that a caller may pass: general ones, and the masks not those of the inputs.
pub record AreGtRegs (x y gt eq : ℕ) : Type 0 where
  pub x_free : (x ≢ 6) × (x ≢ 7) × (x ≢ 31)
  pub y_free : (y ≢ 6) × (y ≢ 7) × (y ≢ 31)
  pub gt_free : (gt ≢ 6) × (gt ≢ 7) × (gt ≢ 31)
  pub eq_free : (eq ≢ 6) × (eq ≢ 7) × (eq ≢ 31)
  pub apart : (gt ≢ eq) × (gt ≢ x) × (gt ≢ y) × (eq ≢ x) × (eq ≢ y)

module _ (x y gt eq : ℕ) (ok : AreGtRegs x y gt eq) (c : Cpu) where
  pub emit_gt_64-gt :
      (run (emit_gt_64 x y gt eq) c).reg gt ≡ gt_after (c.reg gt) (c.reg eq) (c.reg x) (c.reg y)
  unfolding emit_gt_64 run exec gt_after
  emit_gt_64-gt = ground arith

  pub emit_gt_64-eq :
      (run (emit_gt_64 x y gt eq) c).reg eq ≡ eq_after (c.reg eq) (c.reg x) (c.reg y)
  unfolding emit_gt_64 run exec eq_after
  emit_gt_64-eq = ground arith

  pub emit_gt_64-mem : (run (emit_gt_64 x y gt eq) c).mem ≡ c.mem
  unfolding emit_gt_64 run exec
  emit_gt_64-mem = refl

  pub emit_gt_64-other :
      (z : ℕ) → z ≢ 6 → z ≢ 7 → z ≢ gt → z ≢ eq → (run (emit_gt_64 x y gt eq) c).reg z ≡ c.reg z
  unfolding emit_gt_64 run exec
  emit_gt_64-other z p q r s = ground arith

-- The code of `emit_gt_64`, run on bit `k` of two operands, takes the masks that compare their
-- higher bits to masks that compare bit `k` too. It writes the two masks, x6 and x7, nothing else.
-- The operands and masks are general registers, none of these two, and the masks are apart.
pub emit_gt_64-compares :
    (x y gt eq : ℕ)
    → AreGtRegs x y gt eq
    → (c : Cpu) {k : ℕ} {a b : ℕ → ℕ} → IsCompared (suc k) a b (c.reg gt) (c.reg eq)
    → IsPlane k a (c.reg x)
    → IsPlane k b (c.reg y)
    → (z : ℕ) → z ≢ 6
    → z ≢ 7
    → z ≢ gt
    → z ≢ eq
    → let d = run (emit_gt_64 x y gt eq) c in
      IsCompared k a b (d.reg gt) (d.reg eq) × (d.mem ≡ c.mem) × (d.reg z ≡ c.reg z)
emit_gt_64-compares x y gt eq ok c m p q z z6 z7 zg ze = (
  rw (emit_gt_64-gt x y gt eq ok c, emit_gt_64-eq x y gt eq ok c) (IsCompared-step m p q),
  emit_gt_64-mem x y gt eq ok c,
  emit_gt_64-other x y gt eq ok c z z6 z7 zg ze,
)

mux_word : (x a b : ℕ) → ℕ
mux_word x a b = bit_or (bit_and x a) (bit_and b (not64 x))

mux_bits :
    (x a b i : ℕ)
    → i < 64
    → test_bit (mux_word x a b) i ≡ (if test_bit x i then test_bit a i else test_bit b i)
unfolding mux_word
mux_bits x a b i h = ground (
  arith,
  test_bit-bit_or (bit_and x a) (bit_and b (not64 x)) i,
  test_bit-bit_and x a i,
  test_bit-bit_and b (not64 x) i,
  test_bit-not64 x i,
)

-- The code of `emit_mux` leaves in `out`, bit by bit, the bit of one mask where the condition is
-- set and of the other where it is clear, if `tmp` is not one of the registers read after it.
pub emit_mux-selects :
    (x a b out tmp : ℕ)
    → (x ≢ 31) × (a ≢ 31) × (b ≢ 31) × (out ≢ 31) × (tmp ≢ 31)
    → (tmp ≢ b) × (tmp ≢ x) × (tmp ≢ out)
    → (c : Cpu) (i : ℕ) → i < 64
    → test_bit ((run (emit_mux x a b out tmp) c).reg out) i
      ≡ (if test_bit (c.reg x) i then test_bit (c.reg a) i else test_bit (c.reg b) i)
emit_mux-selects x a b out tmp general apart c i h =
    let same : (run (emit_mux x a b out tmp) c).reg out ≡ mux_word (c.reg x) (c.reg a) (c.reg b) =
      unfold emit_mux run exec mux_word in ground arith in
    ap (λ (n : ℕ). test_bit n i) same ∙ mux_bits (c.reg x) (c.reg a) (c.reg b) i h
