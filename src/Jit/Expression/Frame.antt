-- ===== src/Jit/Expression/Frame.antt =====
-- What the kernel saves on the stack, and restores.
use apex_engine.Common.{
  ℕ, ◌+◌, ◌-◌, ◌*◌, ◌<◌, ◌≤◌, ◌≡◌, refl, sym, ◌∙◌, ap, arith, ◌⊎◌, inl, inr, ℕ_discrete,
}
use apex_engine.Word.{two64, add64, sub64}
use apex_engine.Arm64.{Cpu, exec, put}
use apex_engine.Arm64.Flow.{execs}
use apex_engine.Jit.Scalar.Row.{Call, Untouched}
use apex_engine.Jit.Expression.{save_registers, restore_registers}

-- A caller's state: room for six pairs of registers on the stack, which the scratchpad's `size` words
-- leave alone.
pub record HasFrame (size : ℕ) (c : Cpu) : Type 0 where
  pub low : 96 ≤ c.sp
  pub high : c.sp < two64
  pub apart : (k : ℕ) → k < size → (c.reg 1 + 8 * k + 8 ≤ c.sp - 96) ⊎ (c.sp ≤ c.reg 1 + 8 * k)

-- The call, as the loops find it behind the prologue.
abbrev pub framed : ℕ → Cpu → Call
framed size c = record {
  fa = c.reg 0;
  s = c.reg 1;
  size = size;
  memory = (execs save_registers c).mem;
}

-- The memory with registers `a` and `b` at `address`.
abbrev pushed : (ℕ → ℕ) → (ℕ → ℕ) → (address a b : ℕ) → ℕ → ℕ
pushed regs m address a b = put (put m address (regs a)) (address + 8) (regs b)

module _ {size : ℕ} (c : Cpu) (h : HasFrame size c) where
  -- Addresses on the stack do not wrap.
  push_address : (k : ℕ) → k ≤ 80 → sub64 (c.sp - k) 16 ≡ c.sp - (k + 16)
  unfolding sub64
  push_address k small = omega (arith, h.low, h.high)

  second : (k : ℕ) → 16 ≤ k → k ≤ 96 → add64 (c.sp - k) 8 ≡ c.sp - k + 8
  unfolding add64
  second k large small = omega (arith, h.low, h.high)

  pop_address : (k : ℕ) → 16 ≤ k → k ≤ 96 → add64 (c.sp - k) 16 ≡ c.sp - (k - 16)
  unfolding add64
  pop_address k large small = omega (arith, h.low, h.high)

  abbrev stack : ℕ → ℕ
  stack =
      pushed c.reg
        (pushed c.reg
          (pushed c.reg
            (pushed c.reg (pushed c.reg (pushed c.reg c.mem (c.sp - 16) 29 30) (c.sp - 32) 19 20)
              (c.sp - 48) 21 22)
            (c.sp - 64) 23 24)
          (c.sp - 80) 25 26)
        (c.sp - 96) 27 28

  saved_mem : (execs save_registers c).mem ≡ stack
  unfolding save_registers execs exec
  saved_mem =
      let e1 : sub64 c.sp 16 ≡ c.sp - 16 = unfold sub64 in omega (arith, h.low, h.high) in
      let e2 = push_address 16 (omega arith) in
      let e3 = push_address 32 (omega arith) in
      let e4 = push_address 48 (omega arith) in
      let e5 = push_address 64 (omega arith) in
      let e6 = push_address 80 (omega arith) in
      let f1 = second 16 (omega arith) (omega arith) in
      let f2 = second 32 (omega arith) (omega arith) in
      let f3 = second 48 (omega arith) (omega arith) in
      let f4 = second 64 (omega arith) (omega arith) in
      let f5 = second 80 (omega arith) (omega arith) in
      let f6 = second 96 (omega arith) (omega arith) in
      rw (e1, e2, e3, e4, e5, e6, f1, f2, f3, f4, f5, f6) refl

  -- The stack's words are not among those of the scratchpad.
  stack-Untouched : (a : ℕ) → c.sp ≤ a + 96 → a < c.sp → Untouched (framed size c) a
  stack-Untouched a low high k hk e = elim (h.apart k hk) [
    | inl below ↦ omega (arith, low, e, below, h.low)
    | inr above ↦ omega (arith, high, e, above)
  ]

  -- Where a register is kept.
  saved :
      (m : ℕ → ℕ)
      → ((a : ℕ) → Untouched (framed size c) a → m a ≡ (execs save_registers c).mem a)
      → (k x : ℕ) → 8 ≤ k
      → k ≤ 96
      → stack (c.sp - k) ≡ c.reg x
      → m (c.sp - k) ≡ c.reg x
  saved m kept k x low high e =
      kept (c.sp - k)
        (stack-Untouched (c.sp - k) (omega (arith, high)) (omega (arith, low, high, h.low)))
      ∙ ap (λ (f : ℕ → ℕ). f (c.sp - k)) saved_mem
      ∙ e

  abbrev Pair : (ℕ → ℕ) → (k a b : ℕ) → Type 0
  Pair m k a b = (m (c.sp - k) ≡ c.reg a) × (m (c.sp - k + 8) ≡ c.reg b)

  pair :
      (m : ℕ → ℕ)
      → ((a : ℕ) → Untouched (framed size c) a → m a ≡ (execs save_registers c).mem a)
      → (k a b : ℕ) → 16 ≤ k
      → k ≤ 96
      → stack (c.sp - k) ≡ c.reg a
      → stack (c.sp - (k - 8)) ≡ c.reg b
      → Pair m k a b
  pair m kept k a b low high e f =
      let next : c.sp - k + 8 ≡ c.sp - (k - 8) = omega (arith, h.low, low, high) in
      (
        saved m kept k a (omega (arith, low)) high e,
        rw next (saved m kept (k - 8) b (omega (arith, low)) (omega (arith, high)) f),
      )

  -- What is on the stack after the loops.
  pairs :
      (m : ℕ → ℕ)
      → ((a : ℕ) → Untouched (framed size c) a → m a ≡ (execs save_registers c).mem a)
      → Pair m 96 27 28
        × Pair m 80 25 26
        × Pair m 64 23 24
        × Pair m 48 21 22
        × Pair m 32 19 20
        × Pair m 16 29 30
  pairs m kept = (
    pair m kept 96 27 28 (omega arith) (omega arith) (ground (arith, h.low))
        (ground (arith, h.low)),
    pair m kept 80 25 26 (omega arith) (omega arith) (ground (arith, h.low))
        (ground (arith, h.low)),
    pair m kept 64 23 24 (omega arith) (omega arith) (ground (arith, h.low))
        (ground (arith, h.low)),
    pair m kept 48 21 22 (omega arith) (omega arith) (ground (arith, h.low))
        (ground (arith, h.low)),
    pair m kept 32 19 20 (omega arith) (omega arith) (ground (arith, h.low))
        (ground (arith, h.low)),
    pair m kept 16 29 30 (omega arith) (omega arith) (ground (arith, h.low))
        (ground (arith, h.low)),
  )

  -- Behind the epilogue, one after another.
  popped :
      (d : Cpu)
      → d.sp ≡ c.sp - 96
      → ((a : ℕ) → Untouched (framed size c) a → d.mem a ≡ (execs save_registers c).mem a)
      → let e = execs restore_registers d in
        ((e.reg 19 ≡ c.reg 19)
          × (e.reg 20 ≡ c.reg 20)
          × (e.reg 21 ≡ c.reg 21)
          × (e.reg 22 ≡ c.reg 22)
          × (e.reg 23 ≡ c.reg 23)
          × (e.reg 24 ≡ c.reg 24))
        × ((e.reg 25 ≡ c.reg 25)
            × (e.reg 26 ≡ c.reg 26)
            × (e.reg 27 ≡ c.reg 27)
            × (e.reg 28 ≡ c.reg 28)
            × (e.reg 29 ≡ c.reg 29)
            × (e.reg 30 ≡ c.reg 30))
        × (e.sp ≡ c.sp)
  unfolding restore_registers execs exec
  popped d at kept =
      let (p96, p80, p64, p48, p32, p16) = pairs d.mem kept in
      let e1 = pop_address 96 (omega arith) (omega arith) in
      let e2 = pop_address 80 (omega arith) (omega arith) in
      let e3 = pop_address 64 (omega arith) (omega arith) in
      let e4 = pop_address 48 (omega arith) (omega arith) in
      let e5 = pop_address 32 (omega arith) (omega arith) in
      let e6 = pop_address 16 (omega arith) (omega arith) in
      let f1 = second 96 (omega arith) (omega arith) in
      let f2 = second 80 (omega arith) (omega arith) in
      let f3 = second 64 (omega arith) (omega arith) in
      let f4 = second 48 (omega arith) (omega arith) in
      let f5 = second 32 (omega arith) (omega arith) in
      let f6 = second 16 (omega arith) (omega arith) in
      rw (at, e1, e2, e3, e4, e5, e6, f1, f2, f3, f4, f5, f6)
        (
          (p32.0, p32.1, p48.0, p48.1, p64.0, p64.1),
          (p80.0, p80.1, p96.0, p96.1, p16.0, p16.1),
          omega arith,
        )

one_more :
    (f g : ℕ → ℕ) (low high : ℕ)
    → f low ≡ g low
    → ((x : ℕ) → low + 1 ≤ x → x ≤ high → f x ≡ g x)
    → (x : ℕ) → low ≤ x
    → x ≤ high
    → f x ≡ g x
one_more f g low high here there x from to = elim (ℕ_discrete x low) [
  | yes same ↦ ap f same ∙ here ∙ ap g (sym same)
  | no other ↦ there x (omega (arith, from, other)) to
]

-- What a call leaves as it was: the callee-saved registers and the stack pointer.
pub record RestoresAll (c d : Cpu) : Type 0 where
  pub saved_registers : (x : ℕ) → 19 ≤ x → x ≤ 30 → d.reg x ≡ c.reg x
  pub same_sp : d.sp ≡ c.sp

pub epilogue-RestoresAll :
    {size : ℕ} (c d : Cpu)
    → HasFrame size c
    → d.sp ≡ c.sp - 96
    → ((a : ℕ) → Untouched (framed size c) a → d.mem a ≡ (execs save_registers c).mem a)
    → RestoresAll c (execs restore_registers d)
epilogue-RestoresAll c d h at kept =
    let ((s19, s20, s21, s22, s23, s24), (s25, s26, s27, s28, s29, s30), sp) =
      popped c h d at kept in
    let f = (execs restore_registers d).reg in
    let g = c.reg in
    record {
      saved_registers = one_more f g 19 30 s19 (
          one_more f g 20 30 s20 (
            one_more f g 21 30 s21 (
              one_more f g 22 30 s22 (
                one_more f g 23 30 s23 (
                  one_more f g 24 30 s24 (
                    one_more f g 25 30 s25 (
                      one_more f g 26 30 s26 (
                        one_more f g 27 30 s27 (
                          one_more f g 28 30 s28 (
                            one_more f g 29 30 s29 (
                              one_more f g 30 30 s30
                                (λ x from to. absurd (omega (arith, from, to))))))))))))));
      same_sp = sp;
    }

-- The mask is not one of the registers that come from the stack.
pub epilogue_mask : (d : Cpu) → (execs restore_registers d).reg 0 ≡ d.reg 0
unfolding restore_registers execs exec
epilogue_mask d = refl

pub prologue_registers :
    {size : ℕ} (c : Cpu)
    → HasFrame size c
    → let d = execs save_registers c in
      (d.reg 19 ≡ c.reg 0) × (d.reg 20 ≡ c.reg 1) × (d.sp ≡ c.sp - 96)
unfolding save_registers execs exec
prologue_registers c h =
    let e1 : sub64 c.sp 16 ≡ c.sp - 16 = unfold sub64 in omega (arith, h.low, h.high) in
    let e2 = push_address c h 16 (omega arith) in
    let e3 = push_address c h 32 (omega arith) in
    let e4 = push_address c h 48 (omega arith) in
    let e5 = push_address c h 64 (omega arith) in
    let e6 = push_address c h 80 (omega arith) in (refl, refl, rw (e1, e2, e3, e4, e5, e6) refl)
