-- ===== src/Jit/Scalar/Correct.antt =====
-- The whole kernel: its mask, and what it restores.
use apex_engine.Common.{
  ℕ, ◌+◌, ◌-◌, ◌*◌, ◌<◌, ◌≤◌, ◌≡◌, refl, ◌∙◌, ◌⊎◌, inl, inr, arith, List, [], ◌∷◌, some, ◌==◌, Name,
}
use apex_engine.Word.{two64, add64, sub64, test_bit}
use apex_engine.Word.Bitwise.{test_bit-zero}
use apex_engine.Arm64.{Cpu, exec, go, put, next, bind, ret}
use apex_engine.Arm64.Flow.{Leads, Leads-trans, Leads-plain, Leads-falls, Leads-stop, execs}
use apex_engine.Ir.{NodePool}
use apex_engine.Jit.Scalar.{prologue, epilogue, scalar_code}
use apex_engine.Jit.Scalar.Row.{Call, Untouched}
use apex_engine.Jit.Scalar.Loop.{AtRow, Input, loop-Leads}
use apex_engine.Jit.Scalar.Shape.{at_head, prologue-IsPlain, epilogue-IsPlain}

-- A caller's state: room for two frames on the stack, which the scratchpad's `size` words leave alone.
pub record HasStack (size : ℕ) (c : Cpu) : Type 0 where
  pub low : 32 ≤ c.sp
  pub high : c.sp < two64
  pub apart : (k : ℕ) → k < size → (c.reg 1 + 8 * k + 8 ≤ c.sp - 32) ⊎ (c.sp ≤ c.reg 1 + 8 * k)

-- The call, as the loop finds it behind the prologue.
abbrev pub entered : ℕ → Cpu → Call
entered size c = record { fa = c.reg 0; s = c.reg 1; size = size; memory = (execs prologue c).mem }

prologue-AtRow :
    {size : ℕ} {flags : ℕ → ℕ} (c : Cpu)
    → HasStack size c
    → AtRow (entered size c) flags (c.sp - 32) 0 (execs prologue c)
unfolding prologue execs exec
prologue-AtRow c h = record {
  arrays = refl;
  scratch = refl;
  row = refl;
  kept = λ a u. refl;
  mask = λ k hk. test_bit-zero k ∙ ground arith;
  same_sp = unfold sub64 in omega (arith, h.low, h.high);
}

prologue_mem :
    {size : ℕ} (c : Cpu)
    → HasStack size c
    → (execs prologue c).mem
      ≡ put
          (put
            (put (put c.mem (c.sp - 16) (c.reg 29)) (c.sp - 8) (c.reg 30))
            (c.sp - 32)
            (c.reg 19))
          (c.sp - 24)
          (c.reg 20)
unfolding prologue execs exec
prologue_mem c h =
    let e1 : sub64 c.sp 16 ≡ c.sp - 16 = unfold sub64 in omega (arith, h.low, h.high) in
    let e2 : add64 (c.sp - 16) 8 ≡ c.sp - 8 = unfold add64 in omega (arith, h.low, h.high) in
    let e3 : sub64 (c.sp - 16) 16 ≡ c.sp - 32 = unfold sub64 in omega (arith, h.low, h.high) in
    let e4 : add64 (c.sp - 32) 8 ≡ c.sp - 24 = unfold add64 in omega (arith, h.low, h.high) in
    rw (e1, e2, e3, e4) refl

-- What the prologue leaves on the stack.
prologue_saves :
    {size : ℕ} (c : Cpu)
    → HasStack size c
    → let m = (execs prologue c).mem in
      (m (c.sp - 32) ≡ c.reg 19)
      × (m (c.sp - 24) ≡ c.reg 20)
      × (m (c.sp - 16) ≡ c.reg 29)
      × (m (c.sp - 8) ≡ c.reg 30)
prologue_saves c h =
    rw (prologue_mem c h)
      (ground (arith, h.low), ground (arith, h.low), ground (arith, h.low), ground (arith, h.low))

-- The stack's words are not among those of the scratchpad.
stack-Untouched :
    {size : ℕ} (c : Cpu)
    → HasStack size c
    → (a : ℕ) → c.sp ≤ a + 32
    → a < c.sp
    → Untouched (entered size c) a
stack-Untouched c h a low high k hk e = elim (h.apart k hk) [
  | inl below ↦ omega arith
  | inr above ↦ omega arith
]

-- What a call leaves as it was: the callee-saved registers that the kernel uses, and the stack pointer.
pub record Restores (c d : Cpu) : Type 0 where
  pub saved19 : d.reg 19 ≡ c.reg 19
  pub saved20 : d.reg 20 ≡ c.reg 20
  pub saved29 : d.reg 29 ≡ c.reg 29
  pub saved30 : d.reg 30 ≡ c.reg 30
  pub same_sp : d.sp ≡ c.sp

epilogue-Restores :
    {size : ℕ} {flags : ℕ → ℕ} (c d : Cpu)
    → HasStack size c
    → AtRow (entered size c) flags (c.sp - 32) 64 d
    → Restores c (execs epilogue d)
unfolding epilogue execs exec
epilogue-Restores {size} c d h at =
    let (s19, s20, s29, s30) = prologue_saves c h in
    let kept = λ (a : ℕ) (low : c.sp ≤ a + 32) (high : a < c.sp).
      at.kept a (stack-Untouched c h a low high) in
    let a19 : d.sp ≡ c.sp - 32 = at.same_sp in
    let a20 : add64 (c.sp - 32) 8 ≡ c.sp - 24 = unfold add64 in omega (arith, h.low, h.high) in
    let a29 : add64 (c.sp - 32) 16 ≡ c.sp - 16 = unfold add64 in omega (arith, h.low, h.high) in
    let a30 : add64 (c.sp - 16) 8 ≡ c.sp - 8 = unfold add64 in omega (arith, h.low, h.high) in
    let end : add64 (c.sp - 16) 16 ≡ c.sp = unfold add64 in omega (arith, h.low, h.high) in
    record {
      saved19 = rw a19 (kept (c.sp - 32) (omega (arith, h.low)) (omega (arith, h.low)) ∙ s19);
      saved20 =
          rw (a19, a20) (kept (c.sp - 24) (omega (arith, h.low)) (omega (arith, h.low)) ∙ s20);
      saved29 =
          rw (a19, a29) (kept (c.sp - 16) (omega (arith, h.low)) (omega (arith, h.low)) ∙ s29);
      saved30 =
          rw (a19, a29, a30) (kept (c.sp - 8) (omega (arith, h.low)) (omega (arith, h.low)) ∙ s30);
      same_sp = rw (a19, a29, end) refl;
    }

epilogue_mask : (d : Cpu) (k : ℕ) → test_bit ((execs epilogue d).reg 0) k ≡ test_bit (d.reg 19) k
unfolding epilogue execs exec
epilogue_mask d k = refl

-- The code of `compile_scalar_expression` for nodes in which operands come first, where the last node
-- has on each of the 64 rows a `Value` that is 0 or 1: it is made of fields, constants, `ADD`, `SUB`,
-- `GT`, `LT`, `EQ`, `AND` and `OR`, with a truth value at the top, since `NOT`, `SELECT`, `LSL` and `LSR`
-- have no `Value`. Called on the fields' arrays, with a scratchpad of a word for each node and room for
-- two frames on the stack, the code returns a mask whose bit `k` says whether that value is 1 on row `k`.
-- The callee-saved registers 19, 20, 29 and 30 and the stack pointer are restored.
pub scalar_code-evaluates :
    (p : NodePool) (i : ℕ) (rest : List ℕ) (field : ℕ → Name → ℕ) (flags : ℕ → ℕ) (size : ℕ)
    (c : Cpu)
    → HasStack size c
    → Input p (entered size c) field flags i rest
    → (k : ℕ) → k < 64
    → (fuel : ℕ) × (d : Cpu) × (go fuel (scalar_code p (i ∷ rest)) (scalar_code p (i ∷ rest)) c
        ≡ some d)
      × (test_bit (d.reg 0) k ≡ (flags k == 1))
      × Restores c d
unfolding next scalar_code
scalar_code-evaluates p i rest field flags size c h input k hk =
    let code = scalar_code p (i ∷ rest) in
    let c1 = execs prologue c in
    let (d, at, loop) = loop-Leads input c1 (prologue-AtRow c h) in
    let start = Leads-plain {code = code} (bind 0 ∷ at_head p (i ∷ rest)) c prologue-IsPlain in
    let labelled : Leads code (bind 0 ∷ at_head p (i ∷ rest)) c1 (at_head p (i ∷ rest)) c1 =
      unfold exec in Leads-falls (bind 0) (at_head p (i ∷ rest)) c1 refl in
    let finish = Leads-plain {code = code} (ret 30 ∷ []) d epilogue-IsPlain in
    let (fuel, stopped) =
      Leads-stop (ret 30) [] (execs epilogue d) refl
        (Leads-trans start (Leads-trans labelled (Leads-trans loop finish))) in
    (
      fuel,
      execs epilogue d,
      stopped,
      epilogue_mask d k ∙ at.mask k hk ∙ ground (arith, hk),
      epilogue-Restores c d h at,
    )
