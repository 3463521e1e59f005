-- ===== src/Slicer/Transpose.antt =====
-- The six stages together transpose the 64x64 bit matrix.
use apex_engine.Common.{ℕ, ◌+◌, ◌*◌, ◌/◌, ◌%◌, ◌≤◌, ◌<◌, ◌≡◌, refl, ◌∙◌, arith, length, holds_below}
use apex_engine.Word.{test_bit}
use apex_engine.Slicer.{
  ColumnBuffer, Highway, word, transpose, slice, stage5, stage4, stage3, stage2, stage1,
}
use apex_engine.Slicer.Vectors.{IsLanewise}
use apex_engine.Slicer.Stages.{
  stage5-IsStage, stage4-IsStage, stage3-IsStage, stage2-IsStage, stage1-IsStage, stage0-IsStage,
}
use apex_engine.Slicer.Masks.{IsMask, bits_by_table}
use apex_engine.Slicer.Cross.{IsCrossed, IsCrossed-start, Halves, stage-IsCrossed, cell_at}

half32 : Halves 32
half32 = record {
  fits = λ x h p. omega arith;
  both_low = λ x y p q. omega arith;
  both_high = λ x y p q. omega arith;
  low_high = λ x y p q. omega arith;
  high_low = λ x y p q. omega arith;
}

half16 : Halves 16
half16 = record {
  fits = λ x h p. omega arith;
  both_low = λ x y p q. omega arith;
  both_high = λ x y p q. omega arith;
  low_high = λ x y p q. omega arith;
  high_low = λ x y p q. omega arith;
}

half8 : Halves 8
half8 = record {
  fits = λ x h p. omega arith;
  both_low = λ x y p q. omega arith;
  both_high = λ x y p q. omega arith;
  low_high = λ x y p q. omega arith;
  high_low = λ x y p q. omega arith;
}

half4 : Halves 4
half4 = record {
  fits = λ x h p. omega arith;
  both_low = λ x y p q. omega arith;
  both_high = λ x y p q. omega arith;
  low_high = λ x y p q. omega arith;
  high_low = λ x y p q. omega arith;
}

half2 : Halves 2
half2 = record {
  fits = λ x h p. omega arith;
  both_low = λ x y p q. omega arith;
  both_high = λ x y p q. omega arith;
  low_high = λ x y p q. omega arith;
  high_low = λ x y p q. omega arith;
}

half1 : Halves 1
half1 = record {
  fits = λ x h p. omega arith;
  both_low = λ x y p q. omega arith;
  both_high = λ x y p q. omega arith;
  low_high = λ x y p q. omega arith;
  high_low = λ x y p q. omega arith;
}

mask32 : IsMask 32 0x0000_0000_ffff_ffff
unfolding holds_below test_bit
mask32 = record {
  bits = bits_by_table 32 0x0000_0000_ffff_ffff refl;
  shifted = λ c p. ground arith;
}

mask16 : IsMask 16 0x0000_ffff_0000_ffff
unfolding holds_below test_bit
mask16 = record {
  bits = bits_by_table 16 0x0000_ffff_0000_ffff refl;
  shifted = λ c p. ground arith;
}

mask8 : IsMask 8 0x00ff_00ff_00ff_00ff
unfolding holds_below test_bit
mask8 = record { bits = bits_by_table 8 0x00ff_00ff_00ff_00ff refl; shifted = λ c p. ground arith }

mask4 : IsMask 4 0x0f0f_0f0f_0f0f_0f0f
unfolding holds_below test_bit
mask4 = record { bits = bits_by_table 4 0x0f0f_0f0f_0f0f_0f0f refl; shifted = λ c p. ground arith }

mask2 : IsMask 2 0x3333_3333_3333_3333
unfolding holds_below test_bit
mask2 = record { bits = bits_by_table 2 0x3333_3333_3333_3333 refl; shifted = λ c p. ground arith }

mask1 : IsMask 1 0x5555_5555_5555_5555
unfolding holds_below test_bit
mask1 = record { bits = bits_by_table 1 0x5555_5555_5555_5555 refl; shifted = λ c p. ground arith }

module _ {hw : Highway} (w : IsLanewise hw) (a : ColumnBuffer) (fits : 64 ≤ length a) where
  transpose-IsCrossed : IsCrossed 1 a (transpose hw a)
  unfolding transpose
  transpose-IsCrossed =
      let s5 = stage5-IsStage w a fits in
      let a5 = stage5 hw a in
      let f5 : 64 ≤ length a5 = omega (arith, s5.same_length) in
      let s4 = stage4-IsStage w a5 f5 in
      let a4 = stage4 hw a5 in
      let f4 : 64 ≤ length a4 = omega (arith, s4.same_length) in
      let s3 = stage3-IsStage w a4 f4 in
      let a3 = stage3 hw a4 in
      let f3 : 64 ≤ length a3 = omega (arith, s3.same_length) in
      let s2 = stage2-IsStage w a3 f3 in
      let a2 = stage2 hw a3 in
      let f2 : 64 ≤ length a2 = omega (arith, s2.same_length) in
      let s1 = stage1-IsStage w a2 f2 in
      let a1 = stage1 hw a2 in
      let f1 : 64 ≤ length a1 = omega (arith, s1.same_length) in
      stage-IsCrossed mask1 half1
        (stage-IsCrossed mask2 half2
          (stage-IsCrossed mask4 half4
            (stage-IsCrossed mask8 half8
              (stage-IsCrossed mask16 half16 (stage-IsCrossed mask32 half32 (IsCrossed-start a) s5)
                s4)
              s3)
            s2)
          s1)
        (stage0-IsStage a1 f1)

  pub length-slice : length (slice hw a) ≡ length a
  unfolding slice
  length-slice = transpose-IsCrossed.same_length

  -- `BitSlicer::slice` transposes a buffer of at least 64 words: bit `r` of plane `b` is bit `b` of
  -- row `r`. This holds on every vector width that Highway may choose.
  pub slice-transposes :
      (b r : ℕ) → b < 64 → r < 64 → test_bit (word (slice hw a) b) r ≡ test_bit (word a r) b
  unfolding slice
  slice-transposes b r hb hr =
      transpose-IsCrossed.cells b r hb hr
      ∙ cell_at a {r = r / 1 * 1 + b % 1} {c = b / 1 * 1 + r % 1} (omega arith) (omega arith)
