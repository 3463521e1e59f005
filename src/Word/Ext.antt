-- ===== src/Word/Ext.antt =====
-- Words that agree bit by bit are equal, and a word without high bits is small.
use native.Mathlib.Nat.{mod-eq_of_lt, pow-suc}
use apex_engine.Common.{
  ℕ, zero, suc, ◌/◌, ◌%◌, ◌^◌, ◌≤◌, ◌<◌, ◌≡◌, refl, sym, ◌∙◌, ap, arith, false, ◌==◌,
}
use mathlib.Core.Bool.{not}
use Prim.Native.Nat.{bit_and, bit_or, bit_xor}
use apex_engine.Word.{test_bit, IsU64}
use apex_engine.Word.Bitwise.{test_bit-bit_and, test_bit-bit_or, test_bit-bit_xor}
use apex_engine.Word.Shift.{test_bit-mod}

low_digit : (a b : ℕ) → (a % 2 == 1) ≡ (b % 2 == 1) → a % 2 ≡ b % 2
low_digit a b h = ground arith

half-lt : (n a : ℕ) → a < 2 ^ suc n → a / 2 < 2 ^ n
half-lt n a h = omega (arith, pow-suc 2 n)

pub test_bit_ext :
    (n a b : ℕ) → a < 2 ^ n → b < 2 ^ n → ((i : ℕ) → i < n → test_bit a i ≡ test_bit b i) → a ≡ b
unfolding test_bit
test_bit_ext zero a b ha hb h = omega arith
test_bit_ext (suc n) a b ha hb h =
    let rest =
      test_bit_ext n (a / 2) (b / 2) (half-lt n a ha) (half-lt n b hb)
        (λ i p. h (suc i) (omega arith)) in
    omega (arith, rest, low_digit a b (h 0 (omega arith)))

-- Words of 64 bits are equal when their 64 bits are.
pub u64_ext :
    {a b : ℕ} → IsU64 a → IsU64 b → ((i : ℕ) → i < 64 → test_bit a i ≡ test_bit b i) → a ≡ b
u64_ext {a} {b} ha hb h = test_bit_ext 64 a b ha hb h

pub test_bit_high : (n a i : ℕ) → a < 2 ^ n → n ≤ i → test_bit a i ≡ false
test_bit_high n a i h p =
    ap (λ (t : ℕ). test_bit t i) (sym (mod-eq_of_lt h)) ∙ test_bit-mod n a i ∙ ground arith

no_bits : (fuel a : ℕ) → a ≤ fuel → ((i : ℕ) → test_bit a i ≡ false) → a ≡ 0
unfolding test_bit
no_bits fuel zero p h = refl
no_bits zero (suc a) p h = absurd (omega arith)
no_bits (suc fuel) (suc a) p h =
    ground (arith, no_bits fuel (suc a / 2) (omega arith) (λ i. h (suc i)), h 0)

pub lt_of_high : (n a : ℕ) → ((i : ℕ) → n ≤ i → test_bit a i ≡ false) → a < 2 ^ n
unfolding test_bit
lt_of_high zero a h = omega (arith, no_bits a a (omega arith) (λ i. h i (omega arith)))
lt_of_high (suc n) a h =
    omega (arith, pow-suc 2 n, lt_of_high n (a / 2) (λ i p. h (suc i) (omega arith)))

pub bit_and-IsU64 : (a b : ℕ) → IsU64 a → IsU64 (bit_and a b)
bit_and-IsU64 a b h =
    lt_of_high 64 (bit_and a b)
      λ i p. ground (arith, test_bit-bit_and a b i, test_bit_high 64 a i h p)

pub bit_or-IsU64 : (a b : ℕ) → IsU64 a → IsU64 b → IsU64 (bit_or a b)
bit_or-IsU64 a b h k =
    lt_of_high 64 (bit_or a b) λ i p.
      ground (arith, test_bit-bit_or a b i, test_bit_high 64 a i h p, test_bit_high 64 b i k p)

pub bit_xor-IsU64 : (a b : ℕ) → IsU64 a → IsU64 b → IsU64 (bit_xor a b)
bit_xor-IsU64 a b h k = lt_of_high 64 (bit_xor a b) λ i p.
    ground (arith, test_bit-bit_xor a b i, test_bit_high 64 a i h p, test_bit_high 64 b i k p)

-- `a & 1` is the low bit.
pub bit_and-one : (a : ℕ) → (bit_and a 1 == 0) ≡ not (test_bit a 0)
unfolding test_bit
bit_and-one a =
    let small : bit_and a 1 < 2 =
      lt_of_high 1 (bit_and a 1)
        λ i p. ground (arith, test_bit-bit_and a 1 i, test_bit_high 1 1 i (omega arith) p) in
    ground (arith, test_bit-bit_and a 1 0)
