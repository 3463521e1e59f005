-- ===== src/Jit/Expression/Sums.antt =====
-- One step of an adder, on the planes of two columns: the plane of their sum or difference, and the
-- next carry.
use apex_engine.Common.{
  ℕ, suc, ◌+◌, ◌-◌, ◌*◌, ◌<◌, ◌≡◌, ◌≢◌, refl, sym, ◌∙◌, ap, arith, Bool, true, false, not, xor,
  ◌==◌,
}
use apex_engine.Word.{two64, add64, IsU64, test_bit}
use apex_engine.Word.Carry.{carry, majority, test_bit-add64, test_bit-sub64, test_bit-complement}
use apex_engine.Word.Compare.{IsPlane}
use apex_engine.Arm64.{Cpu, exec}
use apex_engine.Arm64.Flow.{execs}
use apex_engine.Jit.Scalar.Value.{flag}
use apex_engine.Jit.Expression.{full_adder, full_subtractor}
use apex_engine.Jit.Expression.Columns.{difference}
use apex_engine.Jit.Expression.Adder.{full_adder-adds, full_subtractor-subtracts}

-- `m` holds every row's carry into bit `b`.
pub record IsCarry (start : ℕ → Bool) (x y : ℕ → ℕ) (b m : ℕ) : Type 0 where
  pub carries : (r : ℕ) → r < 64 → test_bit m r ≡ carry (start r) (x r) (y r) b

-- The carries into bit 0: of a sum, and of a difference, whose register starts as the number 1.
abbrev pub no_carry : ℕ → Bool
no_carry r = false

abbrev pub one_carry : ℕ → Bool
one_carry r = r == 0

-- The complement of a column.
abbrev pub complement : (ℕ → ℕ) → ℕ → ℕ
complement y r = two64 - suc (y r)

-- The sum of three bits, and its two bits.
two_bits :
    (s m a b c : Bool)
    → flag s + 2 * flag m ≡ flag a + flag b + flag c
    → (s ≡ xor (xor a b) c) × (m ≡ majority a b c)
two_bits s m true true true h = ground (arith, h)
two_bits s m true true false h = ground (arith, h)
two_bits s m true false true h = ground (arith, h)
two_bits s m true false false h = ground (arith, h)
two_bits s m false true true h = ground (arith, h)
two_bits s m false true false h = ground (arith, h)
two_bits s m false false true h = ground (arith, h)
two_bits s m false false false h = ground (arith, h)

flag-not : (b : Bool) → 1 - flag b ≡ flag (not b)
flag-not true = refl
flag-not false = refl

-- What the adders leave alone.
pub record Adds (k : ℕ) (c d : Cpu) : Type 0 where
  pub others : (z : ℕ) → z ≢ 5 → z ≢ 6 → z ≢ 7 → z ≢ 14 → z ≢ 21 + k → d.reg z ≡ c.reg z
  pub same_mem : d.mem ≡ c.mem
  pub same_sp : d.sp ≡ c.sp

pub full_adder-Adds : (k : ℕ) (c : Cpu) → Adds k c (execs (full_adder (21 + k)) c)
unfolding full_adder execs exec
full_adder-Adds k c = record {
  others = λ z h5 h6 h7 h14 hk. ground arith;
  same_mem = refl;
  same_sp = refl;
}

pub full_subtractor-Adds : (k : ℕ) (c : Cpu) → Adds k c (execs (full_subtractor (21 + k)) c)
unfolding full_subtractor execs exec
full_subtractor-Adds k c = record {
  others = λ z h5 h6 h7 h14 hk. ground arith;
  same_mem = refl;
  same_sp = refl;
}

module _ (k : ℕ) (small : k < 8) {b : ℕ} (in_word : b < 64) {x y : ℕ → ℕ} (c : Cpu)
    (p : IsPlane b x (c.reg 2)) (q : IsPlane b y (c.reg 3)) where
  pub full_adder-sums :
      IsCarry no_carry x y b (c.reg (21 + k))
      → let d = execs (full_adder (21 + k)) c in
        IsPlane b (λ r. add64 (x r) (y r)) (d.reg 5) × IsCarry no_carry x y (suc b) (d.reg (21 + k))
  unfolding carry
  full_adder-sums into =
      let d = execs (full_adder (21 + k)) c in
      let bits = λ (r : ℕ).
        two_bits (test_bit (d.reg 5) r) (test_bit (d.reg (21 + k)) r) (test_bit (c.reg 2) r)
          (test_bit (c.reg 3) r) (test_bit (c.reg (21 + k)) r) (full_adder-adds k c r small) in
      (
        record {
          bits = λ r h.
              (bits r).0
              ∙ rw (p.bits r h, q.bits r h, into.carries r h)
                  (sym (test_bit-add64 (x r) (y r) b in_word));
        },
        record { carries = λ r h. (bits r).1 ∙ rw (p.bits r h, q.bits r h, into.carries r h) refl },
      )

  pub full_subtractor-sums :
      ((r : ℕ) → IsU64 (y r))
      → IsCarry one_carry x (complement y) b (c.reg (21 + k))
      → let d = execs (full_subtractor (21 + k)) c in
        IsPlane b (λ r. difference r (x r) (y r)) (d.reg 5)
        × IsCarry one_carry x (complement y) (suc b) (d.reg (21 + k))
  unfolding carry difference
  full_subtractor-sums word into =
      let d = execs (full_subtractor (21 + k)) c in
      let inverted = λ (r : ℕ). test_bit-complement 64 (y r) b in_word (word r) in
      let bits = λ (r : ℕ) (h : r < 64).
        two_bits (test_bit (d.reg 5) r) (test_bit (d.reg (21 + k)) r) (test_bit (c.reg 2) r)
          (not (test_bit (c.reg 3) r)) (test_bit (c.reg (21 + k)) r)
          (full_subtractor-subtracts k c r small h
            ∙ ap (λ (n : ℕ). flag (test_bit (c.reg 2) r) + n + flag (test_bit (c.reg (21 + k)) r))
                (flag-not (test_bit (c.reg 3) r))) in
      (
        record {
          bits = λ r h.
              (bits r h).0
              ∙ rw (p.bits r h, q.bits r h, into.carries r h, sym (inverted r))
                  (sym (test_bit-sub64 (r == 0) (x r) (y r) b in_word (word r)));
        },
        record {
          carries = λ r h.
              (bits r h).1 ∙ rw (p.bits r h, q.bits r h, into.carries r h, sym (inverted r)) refl;
        },
      )
