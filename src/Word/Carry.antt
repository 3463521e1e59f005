-- ===== src/Word/Carry.antt =====
-- Sums of words bit by bit: the carry into each bit, as a chain of full adders makes it.
use apex_engine.Common.{
  ℕ, zero, suc, ◌+◌, ◌-◌, ◌/◌, ◌%◌, ◌^◌, ◌<◌, ◌≡◌, refl, sym, ◌∙◌, ap, arith, Bool, true, false,
  not, ◌&&◌, ◌||◌, ◌==◌, xor, if◌then◌else◌,
}
use apex_engine.Word.{test_bit, two64, add64, sub64, IsU64}
use apex_engine.Word.Shift.{test_bit-mod}

-- The complement of a number of `w` bits.
pub test_bit-complement :
    (w a i : ℕ) → i < w → a < 2 ^ w → test_bit (2 ^ w - suc a) i ≡ not (test_bit a i)
unfolding test_bit
test_bit-complement zero a i h small = absurd (omega arith)
test_bit-complement (suc w) a zero h small =
    let half : (2 ^ suc w - suc a) % 2 ≡ 1 - a % 2 = omega (arith, small) in ground (arith, half)
test_bit-complement (suc w) a (suc i) h small =
    let half : (2 ^ suc w - suc a) / 2 ≡ 2 ^ w - suc (a / 2) = omega (arith, small) in
    ap (λ (n : ℕ). test_bit n i) half
    ∙ test_bit-complement w (a / 2) i (omega arith) (omega (arith, small))

-- The carry of a full adder.
abbrev pub majority : Bool → Bool → Bool → Bool
majority a b c = (a && b) || (xor a b && c)

abbrev digit : Bool → ℕ
digit b = if b then 1 else 0

-- The carry into bit `b` of `x + y`, with `start` carried into bit 0.
unfoldable pub carry : (start : Bool) (x y : ℕ) → ℕ → Bool
carry start x y zero = start
carry start x y (suc b) = majority (test_bit x b) (test_bit y b) (carry start x y b)

-- The chain from bit 1 on is that of the halves.
carry-halves :
    (start : Bool) (x y b : ℕ)
    → carry start x y (suc b)
      ≡ carry (majority (test_bit x 0) (test_bit y 0) start) (x / 2) (y / 2) b
unfolding carry test_bit
carry-halves start x y zero = refl
carry-halves start x y (suc b) =
    ap (majority (test_bit (x / 2) b) (test_bit (y / 2) b)) (carry-halves start x y b)

halves :
    (start : Bool) (x y : ℕ)
    → ((x + y + digit start) / 2 ≡ x / 2 + y / 2 + digit (majority (x % 2 == 1) (y % 2 == 1) start))
      × (((x + y + digit start) % 2 == 1) ≡ xor (xor (x % 2 == 1) (y % 2 == 1)) start)
halves true x y = ground arith
halves false x y = ground arith

-- Bit `b` of a sum is the sum bit of the full adder there.
test_bit-sum :
    (start : Bool) (x y b : ℕ)
    → test_bit (x + y + digit start) b ≡ xor (xor (test_bit x b) (test_bit y b)) (carry start x y b)
unfolding test_bit carry
test_bit-sum start x y zero = (halves start x y).1
test_bit-sum start x y (suc b) =
    let next = majority (test_bit x 0) (test_bit y 0) start in
    ap (λ (n : ℕ). test_bit n b) (halves start x y).0
    ∙ test_bit-sum next (x / 2) (y / 2) b
    ∙ ap (xor (xor (test_bit (x / 2) b) (test_bit (y / 2) b))) (sym (carry-halves start x y b))

difference :
    (start : Bool) (x y : ℕ)
    → IsU64 y
    → sub64 (sub64 x y) (if start then 0 else 1) ≡ (x + (two64 - suc y) + digit start) % two64
unfolding sub64
difference true x y h = omega (arith, h)
difference false x y h = omega (arith, h)

pub test_bit-add64 :
    (x y b : ℕ)
    → b < 64
    → test_bit (add64 x y) b ≡ xor (xor (test_bit x b) (test_bit y b)) (carry false x y b)
unfolding add64
test_bit-add64 x y b h =
    test_bit-mod 64 (x + y) b
    ∙ ground (arith, h)
    ∙ ap (λ (n : ℕ). test_bit n b) {x = x + y} {y = x + y + 0} (omega arith)
    ∙ test_bit-sum false x y b

-- A difference is a sum with the complement, and a carry into bit 0; without that carry it is one
-- too small.
pub test_bit-sub64 :
    (start : Bool) (x y b : ℕ)
    → b < 64
    → IsU64 y
    → let z = two64 - suc y in
      test_bit (sub64 (sub64 x y) (if start then 0 else 1)) b
      ≡ xor (xor (test_bit x b) (test_bit z b)) (carry start x z b)
unfolding sub64
test_bit-sub64 start x y b h small =
    let z = two64 - suc y in
    let same : sub64 (sub64 x y) (if start then 0 else 1) ≡ (x + z + digit start) % two64 =
      difference start x y small in
    ap (λ (n : ℕ). test_bit n b) same
    ∙ test_bit-mod 64 (x + z + digit start) b
    ∙ ground (arith, h)
    ∙ test_bit-sum start x z b
