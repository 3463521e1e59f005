-- ===== src/Word/Bitwise.antt =====
-- What the bit operations do to each bit of a word.
use Prim.Native.Nat.{digits, differ, bit_and, bit_or, bit_xor}
use Prim.Native.Nat.{bit_and-bitwise, bit_or-bitwise, bit_xor-bitwise}
use native.Mathlib.Nat.{le_refl}
use apex_engine.Common.{
  ℕ, zero, suc, ◌+◌, ◌*◌, ◌/◌, ◌%◌, ◌≤◌, ◌<◌, min, max, ◌≡◌, refl, ◌∙◌, ap, arith, Bool, false,
  ◌&&◌, ◌||◌, ◌==◌, xor,
}
use apex_engine.Word.{test_bit}

pub test_bit-zero : (i : ℕ) → test_bit 0 i ≡ false
unfolding test_bit
test_bit-zero zero = refl
test_bit-zero (suc i) = test_bit-zero i

-- The low bit of `q * 2 + d`, and the others.
test_bit-double :
    (q d : ℕ)
    → d < 2
    → (test_bit (q * 2 + d) 0 ≡ (d == 1)) × ((i : ℕ) → test_bit (q * 2 + d) (suc i) ≡ test_bit q i)
unfolding test_bit
test_bit-double q d h =
    (ap (λ (n : ℕ). n == 1) (omega arith), λ i. ap (λ (n : ℕ). test_bit n i) (omega arith))

-- A digit function that agrees with a Boolean function, as a law about every digit and bit.
record IsBitwise (z : ℕ → ℕ) (f : ℕ → ℕ → ℕ) (op : Bool → Bool → Bool) : Type 0 where
  rest : (b i : ℕ) → test_bit (z b) i ≡ op false (test_bit b i)
  small : (x y : ℕ) → x < 2 → y < 2 → f x y < 2
  digit : (x y : ℕ) → x < 2 → y < 2 → (f x y == 1) ≡ op (x == 1) (y == 1)

module _ {z : ℕ → ℕ} {f : ℕ → ℕ → ℕ} {op : Bool → Bool → Bool} (w : IsBitwise z f op) where
  at_zero : (b i : ℕ) → test_bit (z b) i ≡ op (test_bit 0 i) (test_bit b i)
  at_zero b i = rw test_bit-zero (w.rest b i)

  test_bit-digits :
      (fuel a b i : ℕ)
      → a ≤ fuel
      → test_bit (digits z f fuel a b) i ≡ op (test_bit a i) (test_bit b i)
  unfolding test_bit
  test_bit-digits zero zero b i h = at_zero b i
  test_bit-digits zero (suc a) b i h = absurd (omega arith)
  test_bit-digits (suc n) zero b i h = at_zero b i
  test_bit-digits (suc n) (suc a) b zero h =
      (test_bit-double (digits z f n (suc a / 2) (b / 2)) (f (suc a % 2) (b % 2))
        (w.small (suc a % 2) (b % 2) (omega arith) (omega arith))).0
      ∙ w.digit (suc a % 2) (b % 2) (omega arith) (omega arith)
  test_bit-digits (suc n) (suc a) b (suc i) h =
      (test_bit-double (digits z f n (suc a / 2) (b / 2)) (f (suc a % 2) (b % 2))
          (w.small (suc a % 2) (b % 2) (omega arith) (omega arith))).1
        i
      ∙ test_bit-digits n (suc a / 2) (b / 2) i (omega arith)

and-IsBitwise : IsBitwise (λ b. 0) min ◌&&◌
and-IsBitwise = record {
  rest = λ b i. test_bit-zero i;
  small = λ x y p q. omega arith;
  digit = λ x y p q. ground arith;
}

or-IsBitwise : IsBitwise (λ b. b) max ◌||◌
or-IsBitwise = record {
  rest = λ b i. refl;
  small = λ x y p q. omega arith;
  digit = λ x y p q. ground arith;
}

differ_digit :
    (x y : ℕ) → x < 2 → y < 2 → (differ x y < 2) × ((differ x y == 1) ≡ xor (x == 1) (y == 1))
differ_digit zero y p q = (q, refl)
differ_digit (suc zero) zero p q = (omega arith, refl)
differ_digit (suc zero) (suc zero) p q = (omega arith, refl)
differ_digit (suc zero) (suc (suc y)) p q = absurd (omega arith)
differ_digit (suc (suc x)) y p q = absurd (omega arith)

xor-IsBitwise : IsBitwise (λ b. b) differ xor
xor-IsBitwise = record {
  rest = λ b i. refl;
  small = λ x y p q. (differ_digit x y p q).0;
  digit = λ x y p q. (differ_digit x y p q).1;
}

pub test_bit-bit_and : (a b i : ℕ) → test_bit (bit_and a b) i ≡ (test_bit a i && test_bit b i)
test_bit-bit_and a b i = rw bit_and-bitwise (test_bit-digits and-IsBitwise a a b i (le_refl _))

pub test_bit-bit_or : (a b i : ℕ) → test_bit (bit_or a b) i ≡ (test_bit a i || test_bit b i)
test_bit-bit_or a b i = rw bit_or-bitwise (test_bit-digits or-IsBitwise a a b i (le_refl _))

pub test_bit-bit_xor : (a b i : ℕ) → test_bit (bit_xor a b) i ≡ xor (test_bit a i) (test_bit b i)
test_bit-bit_xor a b i = rw bit_xor-bitwise (test_bit-digits xor-IsBitwise a a b i (le_refl _))
