-- ===== src/Jit/Expression/Loops.antt =====
-- The kernel's two loops.
use apex_engine.Common.{
  ℕ, zero, suc, ◌+◌, ◌<◌, ◌≤◌, ◌≡◌, refl, arith, true, false, List, ◌∷◌, ◌++◌, Name,
}
use apex_engine.Word.{ones64}
use apex_engine.Arm64.{
  Instr, Cpu, exec, cmp_imm, branch, branch_if, hs, lt_signed, holds, next, bind, add_imm, sub_imm,
  mov_imm,
}
use apex_engine.Arm64.Flow.{
  Leads, Leads-trans, Leads-refl, Leads-plain, Leads-falls, Leads-jump, Leads-jump_if, execs,
}
use apex_engine.Ir.{NodePool}
use apex_engine.Jit.Scalar.Row.{Call}
use apex_engine.Jit.Expression.{arithmetics_code, comparisons_code, masks_start, expression_code}
use apex_engine.Jit.Expression.Steps.{AreNumbered, AtNode}
use apex_engine.Jit.Expression.Bits.{bit_step}
use apex_engine.Jit.Expression.Masks.{AtMask, AreComparable}
use apex_engine.Jit.Expression.MaskBits.{below_bit, mask_step}
use apex_engine.Jit.Expression.MaskStart.{masks-AtMask}
use apex_engine.Jit.Expression.Shape.{arithmetics-IsPlain, comparisons-IsPlain, masks-IsPlain}
use apex_engine.Jit.Expression.Labels.{
  bit_head, bit_tail, second_part, mask_head, mask_tail, at_return, loop_start_lem, loop_end_lem,
  compare_start_lem, compare_end_lem,
}

cmp-AtNode :
    {p : NodePool} {field : ℕ → Name → ℕ} {call : Call} {nodes : List ℕ} {sp b n : ℕ} {c : Cpu}
    (i : ℕ)
    → AtNode p field call nodes sp b n c
    → AtNode p field call nodes sp b n (exec (cmp_imm 15 i) c)
unfolding exec
cmp-AtNode i at = record {
  at = record {
    arrays = at.at.arrays;
    scratch = at.at.scratch;
    bit = at.at.bit;
    kept = at.at.kept;
    stored = at.at.stored;
  };
  carries = at.carries;
  same_sp = at.same_sp;
}

cmp-AtMask :
    {p : NodePool} {field : ℕ → Name → ℕ} {call : Call} {nodes comparisons : List ℕ} {sp b : ℕ}
    {low : ℕ → ℕ} {c : Cpu} (i : ℕ)
    → AtMask p field call nodes comparisons sp b low c
    → AtMask p field call nodes comparisons sp b low (exec (cmp_imm 15 i) c)
unfolding exec
cmp-AtMask i at = record {
  at = record {
    arrays = at.at.arrays;
    scratch = at.at.scratch;
    bit = at.at.bit;
    kept = at.at.kept;
    stored = at.at.stored;
  };
  masks = at.masks;
  same_sp = at.same_sp;
}

module _ {constants : List (ℕ × ℕ)} {p : NodePool} {field : ℕ → Name → ℕ} {call : Call}
    {nodes comparisons : List ℕ} (input : AreNumbered constants p field call nodes)
    (operands : AreComparable constants p field call nodes comparisons) where
  abbrev code : List Instr
  code = expression_code constants p nodes comparisons

  abbrev head : List Instr
  head = bit_head constants p nodes comparisons

  -- One bit of the arithmetic.
  bit-Leads :
      {sp : ℕ} (b : ℕ) (c : Cpu)
      → b < 64
      → AtNode p field call nodes sp b 0 c
      → (d : Cpu) × AtNode p field call nodes sp (b + 1) 0 d × Leads code head c head d
  unfolding next execs
  bit-Leads b c h at =
      let c1 = exec (cmp_imm 15 64) c in
      let at1 = cmp-AtNode 64 at in
      let c2 = execs (arithmetics_code constants p nodes) c1 in
      let d = exec (add_imm 15 15 1) c2 in
      let tail = bit_tail constants p nodes comparisons in
      let in_range : holds hs c1.compared ≡ false =
        unfold holds exec in ground (arith, at.at.bit, h) in
      let on =
        Leads-jump_if {code = code} (branch_if hs 1) (arithmetics_code constants p nodes ++ tail) c1
          hs 1 false refl in_range in
      let jump =
        Leads-jump {code = code} (branch 0) (bind 1 ∷ second_part constants p nodes comparisons) d 0
          refl in
      let back = rw (loop_start_lem constants p nodes comparisons) at jump in
      let through = Leads-plain {code = code} tail c1 (arithmetics-IsPlain constants p nodes) in
      let count =
        Leads-falls {code = code} (add_imm 15 15 1)
          (branch 0 ∷ bind 1 ∷ second_part constants p nodes comparisons) c2 refl in
      (
        d,
        bit_step input h c1 at1,
        Leads-trans (Leads-falls (cmp_imm 15 64) _ c refl)
            (Leads-trans on (Leads-trans through (Leads-trans count back))),
      )

  bits-Leads :
      {sp : ℕ} (left b : ℕ) (c : Cpu)
      → b + left ≡ 64
      → AtNode p field call nodes sp b 0 c
      → (d : Cpu) × AtNode p field call nodes sp 64 0 d × Leads code head c head d
  bits-Leads zero b c e at =
      let last : b ≡ 64 = omega (arith, e) in (c, rw last at at, Leads-refl head c)
  bits-Leads (suc left) b c e at =
      let (d, at', l) = bit-Leads b c (omega (arith, e)) at in
      let (f, done, l') = bits-Leads left (b + 1) d (omega (arith, e)) at' in
      (f, done, Leads-trans l l')

  -- The whole first loop.
  pub arithmetic-Leads :
      {sp : ℕ} (c : Cpu)
      → AtNode p field call nodes sp 0 0 c
      → (d : Cpu) × AtNode p field call nodes sp 64 0 d
        × Leads code head c (second_part constants p nodes comparisons) d
  unfolding next
  arithmetic-Leads c at =
      let (d, done, l) = bits-Leads 64 0 c (omega arith) at in
      let d1 = exec (cmp_imm 15 64) d in
      let at_end : holds hs d1.compared ≡ true = unfold holds exec in ground (arith, done.at.bit) in
      let off =
        Leads-jump_if {code = code} (branch_if hs 1)
          (arithmetics_code constants p nodes ++ bit_tail constants p nodes comparisons) d1 hs 1
          true refl at_end in
      let exit = rw (loop_end_lem constants p nodes comparisons) at off in
      (
        d1,
        cmp-AtNode 64 done,
        Leads-trans l (Leads-trans (Leads-falls (cmp_imm 15 64) _ d refl) exit),
      )

  abbrev masked : List Instr
  masked = mask_head constants p nodes comparisons

  -- From the end of the first loop to the head of the second.
  masks-Leads :
      {sp : ℕ} (c : Cpu)
      → AtNode p field call nodes sp 64 0 c
      → (d : Cpu) × AtMask p field call nodes comparisons sp 63 (λ m. 64) d
        × Leads code (second_part constants p nodes comparisons) c masked d
  unfolding next execs
  masks-Leads c at =
      let c1 = execs (masks_start 0 comparisons) c in
      let d = exec (mov_imm 15 63) c1 in
      let first =
        Leads-plain {code = code} (mov_imm 15 63 ∷ bind 2 ∷ masked) c
          (masks-IsPlain 0 comparisons) in
      let count = Leads-falls {code = code} (mov_imm 15 63) (bind 2 ∷ masked) c1 refl in
      let label : Leads code (bind 2 ∷ masked) d masked d =
        unfold exec in Leads-falls (bind 2) masked d refl in
      (d, masks-AtMask c (input.words) at, Leads-trans first (Leads-trans count label))

  -- One bit of the comparisons.
  mask-Leads :
      {sp : ℕ} (b : ℕ) (c : Cpu)
      → b < 64
      → AtMask p field call nodes comparisons sp b (λ m. suc b) c
      → (d : Cpu) × AtMask p field call nodes comparisons sp (below_bit b) (λ m. b) d
        × Leads code masked c masked d
  unfolding next execs
  mask-Leads b c h at =
      let c1 = exec (cmp_imm 15 0) c in
      let at1 = cmp-AtMask 0 at in
      let c2 = execs (comparisons_code constants p 0 comparisons) c1 in
      let d = exec (sub_imm 15 15 1) c2 in
      let tail = mask_tail constants p nodes comparisons in
      let in_range : holds lt_signed c1.compared ≡ false =
        unfold holds exec in ground (arith, at.at.bit, h) in
      let on =
        Leads-jump_if {code = code} (branch_if lt_signed 3)
          (comparisons_code constants p 0 comparisons ++ tail) c1 lt_signed 3 false refl in_range in
      let jump =
        Leads-jump {code = code} (branch 2) (bind 3 ∷ at_return constants p nodes comparisons) d 2
          refl in
      let back = rw (compare_start_lem constants p nodes comparisons) at jump in
      let through =
        Leads-plain {code = code} tail c1 (comparisons-IsPlain constants p 0 comparisons) in
      let count =
        Leads-falls {code = code} (sub_imm 15 15 1)
          (branch 2 ∷ bind 3 ∷ at_return constants p nodes comparisons) c2 refl in
      (
        d,
        mask_step input operands h c1 at1,
        Leads-trans (Leads-falls (cmp_imm 15 0) _ c refl)
            (Leads-trans on (Leads-trans through (Leads-trans count back))),
      )

  masks_down-Leads :
      {sp : ℕ} (left : ℕ) (c : Cpu)
      → left ≤ 64
      → AtMask p field call nodes comparisons sp (below_bit left) (λ m. left) c
      → (d : Cpu) × AtMask p field call nodes comparisons sp ones64 (λ m. 0) d
        × Leads code masked c masked d
  masks_down-Leads zero c h at = (c, at, Leads-refl masked c)
  masks_down-Leads (suc left) c h at =
      let (d, at', l) = mask-Leads left c (omega (arith, h)) at in
      let (f, done, l') = masks_down-Leads left d (omega (arith, h)) at' in
      (f, done, Leads-trans l l')

  -- The whole second loop.
  pub comparison-Leads :
      {sp : ℕ} (c : Cpu)
      → AtNode p field call nodes sp 64 0 c
      → (d : Cpu) × AtMask p field call nodes comparisons sp ones64 (λ m. 0) d
        × Leads code
            (second_part constants p nodes comparisons)
            c
            (at_return constants p nodes comparisons)
            d
  unfolding next
  comparison-Leads c at =
      let (c1, at1, l1) = masks-Leads c at in
      let (d, done, l) = masks_down-Leads 64 c1 (omega arith) at1 in
      let d1 = exec (cmp_imm 15 0) d in
      let at_end : holds lt_signed d1.compared ≡ true =
        unfold holds exec in ground (arith, done.at.bit) in
      let off =
        Leads-jump_if {code = code} (branch_if lt_signed 3)
          (comparisons_code constants p 0 comparisons ++ mask_tail constants p nodes comparisons) d1
          lt_signed 3 true refl at_end in
      let exit = rw (compare_end_lem constants p nodes comparisons) at off in
      (
        d1,
        cmp-AtMask 0 done,
        Leads-trans l1 (Leads-trans l (Leads-trans (Leads-falls (cmp_imm 15 0) _ d refl) exit)),
      )
