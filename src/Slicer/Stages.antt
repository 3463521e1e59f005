-- ===== src/Slicer/Stages.antt =====
-- Each stage of the transpose as one masked swap of the whole buffer.
use Prim.Native.Nat.{bit_xor}
use apex_engine.Common.{
  ℕ, zero, suc, ◌+◌, ◌-◌, ◌*◌, ◌≤◌, ◌≡◌, refl, ◌∙◌, ap, arith, length, get_or-set_self,
  get_or-set_ne, length-set, lt→ltb,
}
use apex_engine.Word.{shl64}
use apex_engine.Slicer.{
  ColumnBuffer, Highway, word, pair_loop, swap_pair, stage5, stage4, stage3, stage2, stage1, stage0,
}
use apex_engine.Slicer.Vectors.{IsLanewise, swap_mask, upper_word, lower_word}
use apex_engine.Slicer.Rows.{IsSwapped}
use apex_engine.Slicer.Blocks.{
  IsStage, one_block, IsStage-empty, IsStage-append, block-IsSwapped, block_loop-IsStage,
}

abbrev pub WholeStage : ℕ → ℕ → ColumnBuffer → ColumnBuffer → Type 0
WholeStage s m a b = IsStage s m 0 64 a b

module _ {hw : Highway} (w : IsLanewise hw) (a : ColumnBuffer) (fits : 64 ≤ length a) where
  pub stage5-IsStage : WholeStage 32 0x0000_0000_ffff_ffff a (stage5 hw a)
  unfolding stage5
  stage5-IsStage =
      one_block 32 0x0000_0000_ffff_ffff 0 (block-IsSwapped w 4 0x0000_0000_ffff_ffff 0 a fits)

  pub stage4-IsStage : WholeStage 16 0x0000_ffff_0000_ffff a (stage4 hw a)
  unfolding stage4
  stage4-IsStage =
      block_loop-IsStage hw 16 0x0000_ffff_0000_ffff (omega arith)
        (block-IsSwapped w 3 0x0000_ffff_0000_ffff) 2 64 0 a refl (omega arith) fits

  pub stage3-IsStage : WholeStage 8 0x00ff_00ff_00ff_00ff a (stage3 hw a)
  unfolding stage3
  stage3-IsStage =
      block_loop-IsStage hw 8 0x00ff_00ff_00ff_00ff (omega arith)
        (block-IsSwapped w 2 0x00ff_00ff_00ff_00ff) 4 64 0 a refl (omega arith) fits

  pub stage2-IsStage : WholeStage 4 0x0f0f_0f0f_0f0f_0f0f a (stage2 hw a)
  unfolding stage2
  stage2-IsStage =
      block_loop-IsStage hw 4 0x0f0f_0f0f_0f0f_0f0f (omega arith)
        (block-IsSwapped w 1 0x0f0f_0f0f_0f0f_0f0f) 8 64 0 a refl (omega arith) fits

  pub stage1-IsStage : WholeStage 2 0x3333_3333_3333_3333 a (stage1 hw a)
  unfolding stage1
  stage1-IsStage =
      block_loop-IsStage hw 2 0x3333_3333_3333_3333 (omega arith)
        (block-IsSwapped w 0 0x3333_3333_3333_3333) 16 64 0 a refl (omega arith) fits

-- The scalar stage: one pair of rows, then the loop over the pairs.
abbrev mask0 : ℕ
mask0 = 0x5555_5555_5555_5555

swap_pair-IsSwapped :
    (i : ℕ) (a : ColumnBuffer) → i + 2 ≤ length a → IsSwapped 1 mask0 i (i + 1) a (swap_pair i a)
unfolding swap_pair upper_word lower_word
swap_pair-IsSwapped i a fits =
    let t = swap_mask 1 mask0 (word a i) (word a (i + 1)) in
    record {
      same_length = length-set _ i _ ∙ length-set a (i + 1) _;
      upper = λ j h.
          let e : j ≡ i = omega arith in
          rw e (
            get_or-set_self _ i _ 0 (rw length-set (omega arith))
            ∙ ap (λ (x : ℕ). bit_xor x (shl64 t 1)) (get_or-set_ne a (i + 1) i _ 0 (omega arith)));
      lower = λ j h.
          let e : j ≡ i + 1 = omega arith in
          let up : i + 1 - 1 ≡ i = omega arith in
          rw (e, up)
            (get_or-set_ne _ i (i + 1) _ 0 (omega arith)
              ∙ get_or-set_self a (i + 1) _ 0 (omega arith));
      other = λ j p q.
          get_or-set_ne _ i j _ 0 (omega arith) ∙ get_or-set_ne a (i + 1) j _ 0 (omega arith);
    }

pair_loop-IsStage :
    (left fuel q : ℕ) (a : ColumnBuffer)
    → 2 * (q + left) ≡ 64
    → left ≤ fuel
    → 64 ≤ length a
    → IsStage 1 mask0 (2 * q) 64 a (pair_loop fuel (2 * q) a)
unfolding pair_loop
pair_loop-IsStage zero zero q a whole f fits =
    let e : 2 * q ≡ 64 = omega arith in rw e (IsStage-empty 1 mask0 64 a)
pair_loop-IsStage zero (suc fuel) q a whole f fits =
    let e : 2 * q ≡ 64 = omega arith in rw e (IsStage-empty 1 mask0 64 a)
pair_loop-IsStage (suc left) zero q a whole f fits = absurd (omega arith)
pair_loop-IsStage (suc left) (suc fuel) q a whole f fits =
    let next : 2 * q + 2 ≡ 2 * suc q = omega arith in
    let now = swap_pair-IsSwapped (2 * q) a (omega arith) in
    rw (lt→ltb (2 * q) 64 (omega arith), next)
      (IsStage-append 1 mask0 (2 * q) (suc q) 64 (omega arith) (omega arith)
        (rw next at (one_block 1 mask0 q now))
        (pair_loop-IsStage left fuel (suc q) (swap_pair (2 * q) a) (omega arith) (omega arith)
          (rw now.same_length fits)))

pub stage0-IsStage :
    (a : ColumnBuffer) → 64 ≤ length a → WholeStage 1 0x5555_5555_5555_5555 a (stage0 a)
unfolding stage0
stage0-IsStage a fits = pair_loop-IsStage 32 64 0 a refl (omega arith) fits
