-- ===== src/Jit/Expression/Labels.antt =====
-- The kernel's four labels.
use apex_engine.Common.{ℕ, ◌≡◌, refl, ◌∙◌, List, [], ◌∷◌, ◌++◌}
use apex_engine.Arm64.{
  Instr, next, is_bind, after_label, hs, lt_signed, cmp_imm, mov_imm, add_imm, sub_imm, bind,
  branch, branch_if, ret,
}
use apex_engine.Arm64.Flow.{IsPlain, plain_nil, plain_cons, after_label-append}
use apex_engine.Ir.{NodePool}
use apex_engine.Jit.Expression.{
  arithmetics_code, carries_start, masks_start, comparisons_code, result_code, save_registers,
  restore_registers, expression_code,
}
use apex_engine.Jit.Expression.Shape.{
  arithmetics-IsPlain, comparisons-IsPlain, carries-IsPlain, masks-IsPlain,
}

pub save-IsPlain : IsPlain save_registers
unfolding save_registers next is_bind
save-IsPlain =
    plain_cons refl (λ l. refl)
      (plain_cons refl (λ l. refl)
        (plain_cons refl (λ l. refl)
          (plain_cons refl (λ l. refl)
            (plain_cons refl (λ l. refl)
              (plain_cons refl (λ l. refl)
                (plain_cons refl (λ l. refl)
                  (plain_cons refl (λ l. refl) (plain_cons refl (λ l. refl) plain_nil))))))))

pub restore-IsPlain : IsPlain restore_registers
unfolding restore_registers next is_bind
restore-IsPlain =
    plain_cons refl (λ l. refl)
      (plain_cons refl (λ l. refl)
        (plain_cons refl (λ l. refl)
          (plain_cons refl (λ l. refl)
            (plain_cons refl (λ l. refl) (plain_cons refl (λ l. refl) plain_nil)))))

module _ (constants : List (ℕ × ℕ)) (p : NodePool) (nodes comparisons : List ℕ) where
  abbrev pub at_return : List Instr
  at_return = result_code comparisons ++ (restore_registers ++ ret 30 ∷ [])

  abbrev pub mask_tail : List Instr
  mask_tail = sub_imm 15 15 1 ∷ branch 2 ∷ bind 3 ∷ at_return

  abbrev pub mask_head : List Instr
  mask_head =
      cmp_imm 15 0
      ∷ branch_if lt_signed 3
      ∷ (comparisons_code constants p 0 comparisons ++ mask_tail)

  abbrev pub second_part : List Instr
  second_part = masks_start 0 comparisons ++ mov_imm 15 63 ∷ bind 2 ∷ mask_head

  abbrev pub bit_tail : List Instr
  bit_tail = add_imm 15 15 1 ∷ branch 0 ∷ bind 1 ∷ second_part

  abbrev pub bit_head : List Instr
  bit_head = cmp_imm 15 64 ∷ branch_if hs 1 ∷ (arithmetics_code constants p nodes ++ bit_tail)

  abbrev code : List Instr
  code = expression_code constants p nodes comparisons

  pub expression_code_lem :
      code ≡ save_registers ++ (carries_start p nodes ++ mov_imm 15 0 ∷ bind 0 ∷ bit_head)
  unfolding expression_code
  expression_code_lem = refl

  -- Past the prologue and the carries.
  to_bits : (l : ℕ) → after_label l code ≡ after_label l (mov_imm 15 0 ∷ bind 0 ∷ bit_head)
  unfolding expression_code
  to_bits l =
      after_label-append l (carries_start p nodes ++ mov_imm 15 0 ∷ bind 0 ∷ bit_head) save-IsPlain
      ∙ after_label-append l (mov_imm 15 0 ∷ bind 0 ∷ bit_head) (carries-IsPlain p nodes)

  pub loop_start_lem : after_label 0 code ≡ bit_head
  unfolding after_label is_bind
  loop_start_lem = to_bits 0

  pub loop_end_lem : after_label 1 code ≡ second_part
  unfolding after_label is_bind
  loop_end_lem = to_bits 1 ∙ after_label-append 1 bit_tail (arithmetics-IsPlain constants p nodes)

  pub compare_start_lem : after_label 2 code ≡ mask_head
  unfolding after_label is_bind
  compare_start_lem =
      to_bits 2
      ∙ after_label-append 2 bit_tail (arithmetics-IsPlain constants p nodes)
      ∙ after_label-append 2 (mov_imm 15 63 ∷ bind 2 ∷ mask_head) (masks-IsPlain 0 comparisons)

  pub compare_end_lem : after_label 3 code ≡ at_return
  unfolding after_label is_bind
  compare_end_lem =
      to_bits 3
      ∙ after_label-append 3 bit_tail (arithmetics-IsPlain constants p nodes)
      ∙ after_label-append 3 (mov_imm 15 63 ∷ bind 2 ∷ mask_head) (masks-IsPlain 0 comparisons)
      ∙ after_label-append 3 mask_tail (comparisons-IsPlain constants p 0 comparisons)
