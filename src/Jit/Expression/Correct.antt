-- ===== src/Jit/Expression/Correct.antt =====
-- The whole kernel on bit planes: its mask, and what it restores.
use apex_engine.Common.{
  ℕ, ◌<◌, ◌≤◌, ◌≡◌, refl, ◌∙◌, ap, Bool, List, [], ◌∷◌, ◌++◌, some, Name, length,
}
use apex_engine.Word.{test_bit}
use apex_engine.Arm64.{Cpu, exec, go, next, bind, ret, mov_imm}
use apex_engine.Arm64.Flow.{Leads, Leads-trans, Leads-plain, Leads-falls, Leads-stop, execs}
use apex_engine.Ir.{NodePool}
use apex_engine.Jit.Expression.{
  save_registers, restore_registers, carries_start, result_code, expression_code,
}
use apex_engine.Jit.Expression.Columns.{Tests}
use apex_engine.Jit.Expression.Steps.{AreNumbered}
use apex_engine.Jit.Expression.Start.{carries-AtNode}
use apex_engine.Jit.Expression.Masks.{AreComparable}
use apex_engine.Jit.Expression.MaskStart.{result_lem, result_keeps}
use apex_engine.Jit.Expression.Frame.{
  HasFrame, framed, RestoresAll, epilogue-RestoresAll, epilogue_mask, prologue_registers,
}
use apex_engine.Jit.Expression.Shape.{carries-IsPlain, result-IsPlain}
use apex_engine.Jit.Expression.Labels.{bit_head, save-IsPlain, restore-IsPlain}
use apex_engine.Jit.Expression.Loops.{arithmetic-Leads, comparison-Leads}

-- The code of `compile_expression`, called on the fields' planes, returns, where the compiler's
-- numbers are in order and there are at most three comparisons. Bit `r` of the mask that it returns
-- says whether all of the comparisons are true on row `r`, of sums of 64 bits and of differences as
-- `difference` has them. The callee-saved registers and the stack pointer are restored.
pub expression_code-evaluates :
    (constants : List (ℕ × ℕ)) (p : NodePool) (nodes comparisons : List ℕ) (field : ℕ → Name → ℕ)
    (t : ℕ → Bool) (size : ℕ) (c : Cpu)
    → HasFrame size c
    → AreNumbered constants p field (framed size c) nodes
    → AreComparable constants p field (framed size c) nodes comparisons
    → length comparisons ≤ 3
    → Tests p field comparisons t
    → (fuel : ℕ) × (d : Cpu) × (go fuel
          (expression_code constants p nodes comparisons)
          (expression_code constants p nodes comparisons)
          c
        ≡ some d)
      × ((r : ℕ) → r < 64 → test_bit (d.reg 0) r ≡ t r)
      × RestoresAll c d
unfolding next execs expression_code
expression_code-evaluates constants p nodes comparisons field t size c h input operands few tests =
    let code = expression_code constants p nodes comparisons in
    let head = bit_head constants p nodes comparisons in
    let c1 = execs save_registers c in
    let (arrays, scratch, sp) = prologue_registers c h in
    let saves =
      Leads-plain {code = code} (carries_start p nodes ++ mov_imm 15 0 ∷ bind 0 ∷ head) c
        save-IsPlain in
    let carries =
      Leads-plain {code = code} (mov_imm 15 0 ∷ bind 0 ∷ head) c1 (carries-IsPlain p nodes) in
    let c2 = execs (carries_start p nodes) c1 in
    let c3 = exec (mov_imm 15 0) c2 in
    let zero = Leads-falls {code = code} (mov_imm 15 0) (bind 0 ∷ head) c2 refl in
    let label : Leads code (bind 0 ∷ head) c3 head c3 =
      unfold exec in Leads-falls (bind 0) head c3 refl in
    let (c4, at4, l4) =
      arithmetic-Leads input operands c3 (carries-AtNode input c1 arrays scratch sp refl) in
    let (c5, at5, l5) = comparison-Leads input operands c4 at4 in
    let c6 = execs (result_code comparisons) c5 in
    let result =
      Leads-plain {code = code} (restore_registers ++ ret 30 ∷ []) c5
        (result-IsPlain comparisons) in
    let finish = Leads-plain {code = code} (ret 30 ∷ []) c6 restore-IsPlain in
    let d = execs restore_registers c6 in
    let (fuel, stopped) = Leads-stop (ret 30) [] d refl (
      Leads-trans saves (
        Leads-trans carries (
          Leads-trans zero
            (Leads-trans label (Leads-trans l4 (Leads-trans l5 (Leads-trans result finish))))))) in
    let (mem, same_sp) = result_keeps comparisons c5 in
    (
      fuel,
      d,
      stopped,
      (λ r hr. ap (λ (m : ℕ). test_bit m r) (epilogue_mask c6) ∙ result_lem hr few at5 tests),
      epilogue-RestoresAll c c6 h (same_sp ∙ at5.same_sp)
          (λ a u. ap (λ (m : ℕ → ℕ). m a) mem ∙ at5.at.kept a u),
    )
