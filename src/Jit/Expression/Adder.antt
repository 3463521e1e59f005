-- ===== src/Jit/Expression/Adder.antt =====
-- The adder and the subtractor of `compile_expression`, on one bit of 64 rows.
use Prim.Native.Nat.{bit_and, bit_or, bit_xor}
use apex_engine.Common.{
  ℕ, ◌+◌, ◌-◌, ◌*◌, ◌<◌, ◌≡◌, refl, sym, ◌∙◌, ap, ap₂, arith, Bool, true, false, xor, ◌&&◌, ◌||◌,
}
use apex_engine.Word.{test_bit, not64}
use apex_engine.Word.Bitwise.{test_bit-bit_and, test_bit-bit_or, test_bit-bit_xor}
use apex_engine.Word.Shift.{test_bit-not64}
use apex_engine.Arm64.{Cpu, exec}
use apex_engine.Arm64.Flow.{execs}
use apex_engine.Jit.Scalar.Value.{flag}
use apex_engine.Jit.Expression.{full_adder, full_subtractor}

-- Row `i` of a plane, as a number.
abbrev pub row : ℕ → ℕ → ℕ
row plane i = flag (test_bit plane i)

adder_bits :
    (a b c : Bool)
    → flag (xor (xor a b) c) + 2 * flag ((a && b) || (xor a b && c)) ≡ flag a + flag b + flag c
adder_bits true true true = refl
adder_bits true true false = refl
adder_bits true false true = refl
adder_bits true false false = refl
adder_bits false true true = refl
adder_bits false true false = refl
adder_bits false false true = refl
adder_bits false false false = refl

-- The sum of two planes and a carry, with the new carry.
planes_lem :
    (a b c i : ℕ)
    → row (bit_xor (bit_xor a b) c) i + 2 * row (bit_or (bit_and a b) (bit_and (bit_xor a b) c)) i
      ≡ row a i + row b i + row c i
planes_lem a b c i =
    let ab = test_bit-bit_xor a b i in
    let sum : test_bit (bit_xor (bit_xor a b) c) i
        ≡ xor (xor (test_bit a i) (test_bit b i)) (test_bit c i) =
      test_bit-bit_xor (bit_xor a b) c i ∙ ap (λ (x : Bool). xor x (test_bit c i)) ab in
    let carried : test_bit (bit_or (bit_and a b) (bit_and (bit_xor a b) c)) i
        ≡ ((test_bit a i && test_bit b i) || (xor (test_bit a i) (test_bit b i) && test_bit c i)) =
      test_bit-bit_or (bit_and a b) (bit_and (bit_xor a b) c) i
      ∙ ap₂ (λ (x y : Bool). x || y) (test_bit-bit_and a b i)
          (test_bit-bit_and (bit_xor a b) c i ∙ ap (λ (x : Bool). x && test_bit c i) ab) in
    ap₂ (λ (x y : Bool). flag x + 2 * flag y) sum carried
    ∙ adder_bits (test_bit a i) (test_bit b i) (test_bit c i)

-- One step of the code for `ADD`, in carry register `21 + k`: on each of the 64 rows the sum bit in x5
-- and the new carry are those of the bits in x2 and x3 and of the old carry.
pub full_adder-adds :
    (k : ℕ) (c : Cpu) (i : ℕ)
    → k < 8
    → let d = execs (full_adder (21 + k)) c in
      row (d.reg 5) i + 2 * row (d.reg (21 + k)) i
      ≡ row (c.reg 2) i + row (c.reg 3) i + row (c.reg (21 + k)) i
unfolding full_adder execs exec
full_adder-adds k c i h =
    let d = execs (full_adder (21 + k)) c in
    let sum : d.reg 5 ≡ bit_xor (bit_xor (c.reg 2) (c.reg 3)) (c.reg (21 + k)) =
      ground (arith, h) in
    let carried : d.reg (21 + k)
        ≡ bit_or (bit_and (c.reg 2) (c.reg 3))
            (bit_and (bit_xor (c.reg 2) (c.reg 3)) (c.reg (21 + k))) =
      ground (arith, h) in
    ap₂ (λ (x y : ℕ). row x i + 2 * row y i) sum carried
    ∙ planes_lem (c.reg 2) (c.reg 3) (c.reg (21 + k)) i

and_comm : (a b : Bool) → (a && b) ≡ (b && a)
and_comm true true = refl
and_comm true false = refl
and_comm false true = refl
and_comm false false = refl

-- The same with the operands of the last conjunction exchanged.
swapped :
    (a b c i : ℕ)
    → row (bit_or (bit_and a b) (bit_and c (bit_xor a b))) i
      ≡ row (bit_or (bit_and a b) (bit_and (bit_xor a b) c)) i
swapped a b c i =
    let x = bit_xor a b in
    let same : test_bit (bit_and c x) i ≡ test_bit (bit_and x c) i =
      test_bit-bit_and c x i
      ∙ and_comm (test_bit c i) (test_bit x i)
      ∙ sym (test_bit-bit_and x c i) in
    ap flag (
      test_bit-bit_or (bit_and a b) (bit_and c x) i
      ∙ ap (λ (t : Bool). test_bit (bit_and a b) i || t) same
      ∙ sym (test_bit-bit_or (bit_and a b) (bit_and x c) i))

complement : (b i : ℕ) → i < 64 → row (not64 b) i ≡ 1 - row b i
complement b i h = ground (arith, h, test_bit-not64 b i)

-- One step of the code for `SUB`, in carry register `21 + k`: the same of the bits in x2 and of the
-- complement of those in x3.
pub full_subtractor-subtracts :
    (k : ℕ) (c : Cpu) (i : ℕ)
    → k < 8
    → i < 64
    → let d = execs (full_subtractor (21 + k)) c in
      row (d.reg 5) i + 2 * row (d.reg (21 + k)) i
      ≡ row (c.reg 2) i + (1 - row (c.reg 3) i) + row (c.reg (21 + k)) i
unfolding full_subtractor execs exec
full_subtractor-subtracts k c i h hi =
    let d = execs (full_subtractor (21 + k)) c in
    let a = c.reg 2 in
    let b = not64 (c.reg 3) in
    let carry = c.reg (21 + k) in
    let sum : d.reg 5 ≡ bit_xor (bit_xor a b) carry = ground (arith, h) in
    let carried : d.reg (21 + k) ≡ bit_or (bit_and a b) (bit_and carry (bit_xor a b)) =
      ground (arith, h) in
    ap₂ (λ (x y : ℕ). row x i + 2 * row y i) sum carried
    ∙ ap (λ (y : ℕ). row (bit_xor (bit_xor a b) carry) i + 2 * y) (swapped a b carry i)
    ∙ planes_lem a b carry i
    ∙ ap (λ (y : ℕ). row a i + y + row carry i) (complement (c.reg 3) i hi)
