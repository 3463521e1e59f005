-- ===== src/Word/Shift.antt =====
-- Bits of shifted, masked and complemented words, and equality of words bit by bit.
use native.Mathlib.Nat.{pow-suc, one-le-pow, div-div-eq-div-mul, div-add-mod, mod-lt}
use native.Mathlib.Nat.{mul-add-mod_self_left, mod-eq_of_lt}
use Prim.Native.Nat.add
use apex_engine.Common.{
  ℕ, zero, suc, ◌+◌, ◌-◌, ◌*◌, ◌/◌, ◌%◌, ◌^◌, ◌<◌, ◌≡◌, refl, sym, ◌∙◌, ap, arith, ◌&&◌, ltb, leb,
  xor,
}
use apex_engine.Word.{test_bit, shr, shl64, not64, ones64}
use apex_engine.Word.Bitwise.{test_bit-zero, test_bit-bit_xor}

two_pow-suc : (k : ℕ) → 2 ^ suc k ≡ 2 * 2 ^ k
two_pow-suc k = omega (arith, pow-suc 2 k)

div-two_pow-suc : (k a : ℕ) → a / 2 ^ suc k ≡ a / 2 / 2 ^ k
div-two_pow-suc k a = rw two_pow-suc (sym (div-div-eq-div-mul a 2 (2 ^ k)))

-- A remainder by a power of two keeps the low digit, and reduces the rest.
mod-double : (p a : ℕ) → 0 < p → a % (2 * p) ≡ a / 2 % p * 2 + a % 2
mod-double p a h =
    let q = a / 2 in
    let c = q % p * 2 + a % 2 in
    let split : a ≡ 2 * p * (q / p) + c = omega (arith, ap (λ (t : ℕ). 2 * t) (div-add-mod q p)) in
    let small : c < 2 * p = omega (arith, mod-lt q {m = p} h) in
    ap (λ (t : ℕ). t % (2 * p)) split ∙ mul-add-mod_self_left (2 * p) (q / p) c ∙ mod-eq_of_lt small

mod-two_pow-suc : (k a : ℕ) → a % 2 ^ suc k ≡ a / 2 % 2 ^ k * 2 + a % 2
mod-two_pow-suc k a = rw two_pow-suc (mod-double (2 ^ k) a (one-le-pow k 2 (omega arith)))

test_bit_congr : {a b : ℕ} (i : ℕ) → a ≡ b → test_bit a i ≡ test_bit b i
test_bit_congr i e = ap (λ (n : ℕ). test_bit n i) e

test_bit-suc_add : (a k i : ℕ) → test_bit (a / 2) (k + i) ≡ test_bit a (suc k + i)
unfolding test_bit
test_bit-suc_add a k i = rw add.suc refl

pub test_bit-div : (k a i : ℕ) → test_bit (a / 2 ^ k) i ≡ test_bit a (k + i)
test_bit-div zero a i =
    test_bit_congr {a = a / 1} {b = a} i (omega arith)
    ∙ ap (test_bit a) {x = i} {y = 0 + i} (omega arith)
test_bit-div (suc k) a i =
    test_bit_congr i (div-two_pow-suc k a) ∙ test_bit-div k (a / 2) i ∙ test_bit-suc_add a k i

-- `a >> k` has bit `k + i` of `a` as bit `i`.
pub test_bit-shr : (a k i : ℕ) → test_bit (shr a k) i ≡ test_bit a (k + i)
unfolding shr
test_bit-shr a k i = test_bit-div k a i

-- The bits of a remainder by a power of two are the low bits.
pub test_bit-mod : (n a i : ℕ) → test_bit (a % 2 ^ n) i ≡ (ltb i n && test_bit a i)
unfolding test_bit
test_bit-mod zero a i =
    test_bit_congr {a = a % 1} {b = 0} i (omega arith) ∙ test_bit-zero i ∙ ground arith
test_bit-mod (suc n) a zero = ground (arith, mod-two_pow-suc n a)
test_bit-mod (suc n) a (suc i) =
    test_bit_congr {a = a % 2 ^ suc n / 2} {b = a / 2 % 2 ^ n} i
      (omega (arith, mod-two_pow-suc n a))
    ∙ test_bit-mod n (a / 2) i
    ∙ ground arith

mul-two_pow-suc : (a k : ℕ) → a * 2 ^ suc k ≡ 2 * (a * 2 ^ k)
mul-two_pow-suc a k = omega (arith, ap (λ (t : ℕ). a * t) (two_pow-suc k))

pub test_bit-mul : (k a i : ℕ) → test_bit (a * 2 ^ k) i ≡ (leb k i && test_bit a (i - k))
unfolding test_bit
test_bit-mul zero a i =
    test_bit_congr {a = a * 1} {b = a} i (omega arith)
    ∙ ap (test_bit a) {x = i} {y = i - 0} (omega arith)
    ∙ ground arith
test_bit-mul (suc k) a zero = ground (arith, mul-two_pow-suc a k)
test_bit-mul (suc k) a (suc i) =
    test_bit_congr {a = a * 2 ^ suc k / 2} {b = a * 2 ^ k} i (omega (arith, mul-two_pow-suc a k))
    ∙ test_bit-mul k a i
    ∙ ap (λ (t : ℕ). leb k i && test_bit a t) {x = i - k} {y = suc i - suc k} (omega arith)
    ∙ ground arith

-- Bit `i` of `a << k` is bit `i - k` of `a`, for `k ≤ i` below the width.
pub test_bit-shl64 :
    (a k i : ℕ) → test_bit (shl64 a k) i ≡ (ltb i 64 && (leb k i && test_bit a (i - k)))
unfolding shl64
test_bit-shl64 a k i = test_bit-mod 64 (a * 2 ^ k) i ∙ ap (λ b. ltb i 64 && b) (test_bit-mul k a i)

pub test_bit-ones : (k i : ℕ) → test_bit (2 ^ k - 1) i ≡ ltb i k
unfolding test_bit
test_bit-ones zero i = test_bit-zero i ∙ ground arith
test_bit-ones (suc k) zero = ground (arith, two_pow-suc k, one-le-pow k 2)
test_bit-ones (suc k) (suc i) =
    test_bit_congr {a = (2 ^ suc k - 1) / 2} {b = 2 ^ k - 1} i
      (omega (arith, two_pow-suc k, one-le-pow k 2 (omega arith)))
    ∙ test_bit-ones k i
    ∙ ground arith

pub test_bit-ones64 : (i : ℕ) → test_bit ones64 i ≡ ltb i 64
test_bit-ones64 i = test_bit-ones 64 i

pub test_bit-not64 : (a i : ℕ) → test_bit (not64 a) i ≡ xor (test_bit a i) (ltb i 64)
unfolding not64
test_bit-not64 a i = test_bit-bit_xor a ones64 i ∙ ap (xor (test_bit a i)) (test_bit-ones64 i)
