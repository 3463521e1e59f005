-- ===== src/Slicer/Cross.antt =====
-- What one stage does to the 64x64 bit matrix: it exchanges one more digit of the row's and the
-- column's number.
use apex_engine.Common.{
  ℕ, ◌+◌, ◌-◌, ◌*◌, ◌/◌, ◌%◌, ◌≤◌, ◌<◌, ◌≡◌, refl, ◌∙◌, ap, ap₂, arith, Bool, length, dec_lt,
}
use apex_engine.Word.{test_bit}
use apex_engine.Slicer.{ColumnBuffer, word}
use apex_engine.Slicer.Stages.{WholeStage}
use apex_engine.Slicer.Masks.{
  IsMask, lower_bit_keep, lower_bit_take, upper_bit_keep, upper_bit_take,
}

-- Bit `c` of row `r`.
abbrev pub cell : ColumnBuffer → ℕ → ℕ → Bool
cell a r c = test_bit (word a r) c

-- Rows and columns have exchanged all but the low digits of their numbers, in base `s`.
pub record IsCrossed (s : ℕ) (a b : ColumnBuffer) : Type 0 where
  pub same_length : length b ≡ length a
  pub cells :
      (r c : ℕ) → r < 64 → c < 64 → cell b r c ≡ cell a (c / s * s + r % s) (r / s * s + c % s)

-- How the half blocks of size `s` lie in the blocks of size `2 * s`.
pub record Halves (s : ℕ) : Type 0 where
  pub fits : (x : ℕ) → x < 64 → x % (2 * s) < s → x + s < 64
  pub both_low :
      (x y : ℕ)
      → x % (2 * s) < s
      → y % (2 * s) < s
      → y / (2 * s) * (2 * s) + x % (2 * s) ≡ y / s * s + x % s
  pub both_high :
      (x y : ℕ)
      → s ≤ x % (2 * s)
      → s ≤ y % (2 * s)
      → y / (2 * s) * (2 * s) + x % (2 * s) ≡ y / s * s + x % s
  pub low_high :
      (x y : ℕ)
      → x % (2 * s) < s
      → s ≤ y % (2 * s)
      → (y - s) / (2 * s) * (2 * s) + (x + s) % (2 * s) ≡ y / s * s + x % s
  pub high_low :
      (x y : ℕ)
      → x % (2 * s) < s
      → s ≤ y % (2 * s)
      → (x + s) / (2 * s) * (2 * s) + (y - s) % (2 * s) ≡ x / s * s + y % s

pub cell_at : (a : ColumnBuffer) {r r' c c' : ℕ} → r ≡ r' → c ≡ c' → cell a r c ≡ cell a r' c'
cell_at a p q = ap₂ (cell a) p q

module _ {s m : ℕ} (k : IsMask s m) (half : Halves s) where
  -- One stage halves the block size.
  pub stage-IsCrossed :
      {a b d : ColumnBuffer} → IsCrossed (2 * s) a b → WholeStage s m b d → IsCrossed s a d
  stage-IsCrossed {a} {b} {d} x st = record {
    same_length = st.same_length ∙ x.same_length;
    cells = cells;
  }
    where
      cells :
          (r c : ℕ) → r < 64 → c < 64 → cell d r c ≡ cell a (c / s * s + r % s) (r / s * s + c % s)
      cells r c hr hc = elim (dec_lt (r % (2 * s)) s) [
        | yes rl ↦
            ap (λ (t : ℕ). test_bit t c) (st.upper r (omega arith) rl)
            ∙ elim (dec_lt (c % (2 * s)) s) [
              | yes cl ↦
                  upper_bit_keep k _ _ c hc cl
                  ∙ x.cells r c hr hc
                  ∙ cell_at a (half.both_low r c rl cl) (half.both_low c r cl rl)
              | no ch ↦
                  upper_bit_take k _ _ c hc (omega arith)
                  ∙ x.cells (r + s) (c - s) (half.fits r hr rl) (omega arith)
                  ∙ cell_at a (half.low_high r c rl (omega arith))
                      (half.high_low r c rl (omega arith))
            ]
        | no rh ↦
            ap (λ (t : ℕ). test_bit t c) (st.lower r (omega arith) (omega arith))
            ∙ elim (dec_lt (c % (2 * s)) s) [
              | yes cl ↦
                  lower_bit_take k _ _ c hc cl
                  ∙ ap (test_bit (word b (r - s))) {x = s + c} {y = c + s} (omega arith)
                  ∙ x.cells (r - s) (c + s) (omega arith) (half.fits c hc cl)
                  ∙ cell_at a (half.high_low c r cl (omega arith))
                      (half.low_high c r cl (omega arith))
              | no ch ↦
                  lower_bit_keep k _ _ c hc (omega arith)
                  ∙ x.cells r c hr hc
                  ∙ cell_at a (half.both_high r c (omega arith) (omega arith))
                      (half.both_high c r (omega arith) (omega arith))
            ]
      ]

pub IsCrossed-start : (a : ColumnBuffer) → IsCrossed 64 a a
IsCrossed-start a = record {
  same_length = refl;
  cells = λ r c hr hc. cell_at a {r = r} {c = c} (omega arith) (omega arith);
}
