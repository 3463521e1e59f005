-- ===== src/Word/Compare.antt =====
-- Comparing numbers from the top bit down, for 64 rows at once in two masks.
use native.Mathlib.Nat.{pow-suc, div-div-eq-div-mul}
use Prim.Native.Nat.{bit_and, bit_or, bit_xor}
use apex_engine.Common.{
  ℕ, suc, ◌+◌, ◌/◌, ◌%◌, ◌^◌, ◌<◌, ◌≡◌, sym, ◌∙◌, ap, arith, true, false, not, ◌&&◌, ◌||◌, ◌==◌,
  ltb, xor,
}
use apex_engine.Word.{test_bit, shr, not64, ones64, IsU64}
use apex_engine.Word.Bitwise.{test_bit-zero, test_bit-bit_and, test_bit-bit_or, test_bit-bit_xor}
use apex_engine.Word.Shift.{test_bit-shr, test_bit-not64, test_bit-ones64}

shr_half : (a k : ℕ) → shr a (suc k) ≡ shr a k / 2
unfolding shr
shr_half a k = ap (λ (t : ℕ). a / t) (pow-suc 2 k) ∙ sym (div-div-eq-div-mul a (2 ^ k) 2)

shr_low : (a k : ℕ) → test_bit a k ≡ (shr a k % 2 == 1)
unfolding test_bit
shr_low a k = ap (test_bit a) {x = k} {y = k + 0} (omega arith) ∙ sym (test_bit-shr a k 0)

shr-zero : (a : ℕ) → shr a 0 ≡ a
unfolding shr
shr-zero a = omega arith

pub shr_top : (a : ℕ) → IsU64 a → shr a 64 ≡ 0
unfolding shr
shr_top a h = omega arith

-- The masks `gt` and `eq` say of each row how `a` and `b` compare when cut to the bits from `k` up.
pub record IsCompared (k : ℕ) (a b : ℕ → ℕ) (gt eq : ℕ) : Type 0 where
  pub masks :
      (r : ℕ)
      → r < 64
      → (test_bit gt r ≡ ltb (shr (b r) k) (shr (a r) k))
        × (test_bit eq r ≡ (shr (a r) k == shr (b r) k))

-- `x` holds bit `k` of every row's value.
pub record IsPlane (k : ℕ) (a : ℕ → ℕ) (x : ℕ) : Type 0 where
  pub bits : (r : ℕ) → r < 64 → test_bit x r ≡ test_bit (a r) k

-- Before the first bit: nothing is greater, all are equal.
pub IsCompared-start :
    (a b : ℕ → ℕ) → ((r : ℕ) → IsU64 (a r)) → ((r : ℕ) → IsU64 (b r)) → IsCompared 64 a b 0 ones64
IsCompared-start a b ha hb = record {
  masks = λ r h. (
    test_bit-zero r ∙ ground (arith, shr_top (a r) (ha r), shr_top (b r) (hb r)),
    test_bit-ones64 r ∙ ground (arith, shr_top (a r) (ha r), shr_top (b r) (hb r)),
  );
}

-- After the last bit the masks compare the values.
pub IsCompared-end :
    {a b : ℕ → ℕ} {gt eq : ℕ}
    → IsCompared 0 a b gt eq
    → (r : ℕ) → r < 64
    → (test_bit gt r ≡ ltb (b r) (a r)) × (test_bit eq r ≡ (a r == b r))
IsCompared-end {a} {b} c r h = ground (arith, c.masks r h, shr-zero (a r), shr-zero (b r))

-- One more bit: the masks after it.
unfoldable pub gt_after : (gt eq x y : ℕ) → ℕ
gt_after gt eq x y = bit_or gt (bit_and eq (bit_and x (not64 y)))

unfoldable pub eq_after : (eq x y : ℕ) → ℕ
eq_after eq x y = bit_and eq (not64 (bit_xor x y))

-- The same, bit by bit.
after_bits :
    (gt eq x y r : ℕ)
    → r < 64
    → (test_bit (gt_after gt eq x y) r
        ≡ (test_bit gt r || (test_bit eq r && (test_bit x r && not (test_bit y r)))))
      × (test_bit (eq_after eq x y) r ≡ (test_bit eq r && not (xor (test_bit x r) (test_bit y r))))
unfolding gt_after eq_after
after_bits gt eq x y r h = ground (
  arith,
  test_bit-bit_or gt (bit_and eq (bit_and x (not64 y))) r,
  test_bit-bit_and eq (bit_and x (not64 y)) r,
  test_bit-bit_and x (not64 y) r,
  test_bit-not64 y r,
  test_bit-bit_and eq (not64 (bit_xor x y)) r,
  test_bit-not64 (bit_xor x y) r,
  test_bit-bit_xor x y r,
)

-- Comparing two numbers by their halves and their low digits.
digit_compare :
    (u v : ℕ)
    → (ltb v u ≡ (ltb (v / 2) (u / 2) || ((u / 2 == v / 2) && ((u % 2 == 1) && not (v % 2 == 1)))))
      × ((u == v) ≡ ((u / 2 == v / 2) && not (xor (u % 2 == 1) (v % 2 == 1))))
digit_compare u v = ground arith

pub IsCompared-step :
    {k : ℕ} {a b : ℕ → ℕ} {gt eq x y : ℕ}
    → IsCompared (suc k) a b gt eq
    → IsPlane k a x
    → IsPlane k b y
    → IsCompared k a b (gt_after gt eq x y) (eq_after eq x y)
IsCompared-step {k} {a} {b} {gt} {eq} {x} {y} c p q = record {
  masks = λ r h. ground (
    arith,
    after_bits gt eq x y r h,
    c.masks r h,
    p.bits r h,
    q.bits r h,
    shr_low (a r) k,
    shr_low (b r) k,
    shr_half (a r) k,
    shr_half (b r) k,
    digit_compare (shr (a r) k) (shr (b r) k),
  );
}

-- One more bit where the second operand has the same bit in every row.
pub IsCompared-step_clear :
    {k : ℕ} {a b : ℕ → ℕ} {gt eq x : ℕ}
    → IsCompared (suc k) a b gt eq
    → IsPlane k a x
    → ((r : ℕ) → test_bit (b r) k ≡ false)
    → IsCompared k a b (bit_or gt (bit_and eq x)) (bit_and eq (not64 x))
IsCompared-step_clear {k} {a} {b} {gt} {eq} {x} c p q = record {
  masks = λ r h. ground (
    arith,
    test_bit-bit_or gt (bit_and eq x) r,
    test_bit-bit_and eq x r,
    test_bit-bit_and eq (not64 x) r,
    test_bit-not64 x r,
    c.masks r h,
    p.bits r h,
    q r,
    shr_low (a r) k,
    shr_low (b r) k,
    shr_half (a r) k,
    shr_half (b r) k,
    digit_compare (shr (a r) k) (shr (b r) k),
  );
}

pub IsCompared-step_set :
    {k : ℕ} {a b : ℕ → ℕ} {gt eq x : ℕ}
    → IsCompared (suc k) a b gt eq
    → IsPlane k a x
    → ((r : ℕ) → test_bit (b r) k ≡ true)
    → IsCompared k a b gt (bit_and eq x)
IsCompared-step_set {k} {a} {b} {gt} {eq} {x} c p q = record {
  masks = λ r h. ground (
    arith,
    test_bit-bit_and eq x r,
    c.masks r h,
    p.bits r h,
    q r,
    shr_low (a r) k,
    shr_low (b r) k,
    shr_half (a r) k,
    shr_half (b r) k,
    digit_compare (shr (a r) k) (shr (b r) k),
  );
}
