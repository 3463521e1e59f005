-- ===== src/Arm64.antt =====
-- The A64 instructions that src/jit/compiler.cpp and src/jit/circuit_library.cpp emit, one
-- constructor for each call on AsmJit's `a64::Assembler`, and what the architecture says that each
-- does. Registers are numbers, 31 is `xzr`; memory is read and written at the 8-byte words that the
-- code addresses. AsmJit's runtime, which makes code callable, is a parameter.
pub mod Flow
use Prim.Native.Nat.{bit_and, bit_or, bit_xor}
use apex_engine.Common.{
  ℕ, zero, suc, ◌+◌, ◌*◌, ◌%◌, ◌^◌, Bool, true, false, ◌≡◌, List, [], ◌∷◌, Option, none, some, ltb,
  leb, ◌==◌, if◌then◌else◌,
}
use apex_engine.Word.{add64, sub64, not64, shl64, two64}

-- The conditions of branches and of `cset`, `hs` and `lo` unsigned, `lt_signed` signed.
pub data Cond : Type 0 where
  hs lo hi eq lt_signed : Cond

-- Loads and stores name the data register, the base register, and an offset or an index register,
-- which `ldr_scaled` shifts left by three. `bind l` is the place of label `l`.
pub data Instr : Type 0 where
  and_reg orr_reg bic_reg eor_reg add_reg sub_reg lsl_reg : ℕ → ℕ → ℕ → Instr
  mov_reg mvn_reg : ℕ → ℕ → Instr
  mov_imm : ℕ → ℕ → Instr
  movz movk : ℕ → ℕ → ℕ → Instr
  add_imm sub_imm lsl_imm : ℕ → ℕ → ℕ → Instr
  cmp_reg cmp_imm : ℕ → ℕ → Instr
  cset : ℕ → Cond → Instr
  ldr_post ldr_offset ldr_index ldr_scaled str_offset str_index : ℕ → ℕ → ℕ → Instr
  stp_push ldp_pop : ℕ → ℕ → Instr
  mov_from_sp : ℕ → Instr
  bind branch : ℕ → Instr
  branch_if : Cond → ℕ → Instr
  ret : ℕ → Instr

-- `compared` are the operands of the last comparison, which the flags record.
pub record Cpu : Type 0 where
  pub reg : ℕ → ℕ
  pub mem : ℕ → ℕ
  pub sp : ℕ
  pub compared : ℕ × ℕ

abbrev pub read : Cpu → ℕ → ℕ
read c r = if r == 31 then 0 else c.reg r

abbrev pub put : (ℕ → ℕ) → ℕ → ℕ → ℕ → ℕ
put f r v x = if x == r then v else f x

abbrev pub write : Cpu → ℕ → ℕ → Cpu
write c r v = record c { reg = put c.reg r v }

abbrev pub store : Cpu → ℕ → ℕ → Cpu
store c a v = record c { mem = put c.mem a v }

-- A signed word, moved up by 2 ^ 63, so that the order is that of the numbers.
abbrev pub signed_key : ℕ → ℕ
signed_key a = (a + 2 ^ 63) % two64

unfoldable pub holds : Cond → ℕ × ℕ → Bool
holds hs (a, b) = leb b a
holds lo (a, b) = ltb a b
holds hi (a, b) = ltb b a
holds eq (a, b) = a == b
holds lt_signed (a, b) = ltb (signed_key a) (signed_key b)

-- `movk`: the 16 bits from `s` on become `i`.
unfoldable pub insert16 : (a i s : ℕ) → ℕ
insert16 a i s = bit_or (bit_and a (not64 (shl64 0xffff s))) (shl64 i s)

-- One instruction. `ldr_post d b i` loads through `b`, then adds `i` to `b`, modulo 2 ^ 64.
unfoldable pub exec : Instr → Cpu → Cpu
exec (and_reg d n m) c = write c d (bit_and (read c n) (read c m))
exec (orr_reg d n m) c = write c d (bit_or (read c n) (read c m))
exec (bic_reg d n m) c = write c d (bit_and (read c n) (not64 (read c m)))
exec (eor_reg d n m) c = write c d (bit_xor (read c n) (read c m))
exec (add_reg d n m) c = write c d (add64 (read c n) (read c m))
exec (sub_reg d n m) c = write c d (sub64 (read c n) (read c m))
exec (lsl_reg d n m) c = write c d (shl64 (read c n) (read c m % 64))
exec (mov_reg d n) c = write c d (read c n)
exec (mvn_reg d n) c = write c d (not64 (read c n))
exec (mov_imm d i) c = write c d i
exec (movz d i s) c = write c d (shl64 i s)
exec (movk d i s) c = write c d (insert16 (read c d) i s)
exec (add_imm d n i) c = write c d (add64 (read c n) i)
exec (sub_imm d n i) c = write c d (sub64 (read c n) i)
exec (lsl_imm d n k) c = write c d (shl64 (read c n) k)
exec (cmp_reg n m) c = record c { compared = (read c n, read c m) }
exec (cmp_imm n i) c = record c { compared = (read c n, i) }
exec (cset d k) c = write c d (if holds k c.compared then 1 else 0)
exec (ldr_post d b i) c = write (write c d (c.mem (read c b))) b (add64 (read c b) i)
exec (ldr_offset d b i) c = write c d (c.mem (add64 (read c b) i))
exec (ldr_index d b x) c = write c d (c.mem (add64 (read c b) (read c x)))
exec (ldr_scaled d b x) c = write c d (c.mem (add64 (read c b) (shl64 (read c x) 3)))
exec (str_offset d b i) c = store c (add64 (read c b) i) (read c d)
exec (str_index d b x) c = store c (add64 (read c b) (read c x)) (read c d)
exec (stp_push a b) c =
    let s = sub64 c.sp 16 in record (store (store c s (read c a)) (add64 s 8) (read c b)) { sp = s }
exec (ldp_pop a b) c = record (write (write c a (c.mem c.sp)) b (c.mem (add64 c.sp 8))) {
  sp = add64 c.sp 16;
}
exec (mov_from_sp d) c = write c d c.sp
exec (bind l) c = c
exec (branch l) c = c
exec (branch_if k l) c = c
exec (ret r) c = c

-- Straight-line code, up to the return.
unfoldable pub run : List Instr → Cpu → Cpu
run [] c = c
run (ret r ∷ code) c = c
run (i ∷ code) c = run code (exec i c)

-- The code behind a label.
unfoldable pub is_bind : ℕ → Instr → Bool
is_bind l (bind k) = k == l
is_bind l i = false

unfoldable pub after_label : ℕ → List Instr → List Instr
after_label l [] = []
after_label l (i ∷ code) = if is_bind l i then code else after_label l code

-- Where an instruction leads.
pub data Next : Type 0 where
  falls stops : Next
  jumps : ℕ → Next
  jumps_if : Cond → ℕ → Next

unfoldable pub next : Instr → Next
next (branch l) = jumps l
next (branch_if k l) = jumps_if k l
next (ret r) = stops
next i = falls

-- Code with branches: `code` is the whole, `rest` what is ahead. `none` is too little fuel, or a
-- run past the end.
unfoldable pub go : (fuel : ℕ) (code rest : List Instr) → Cpu → Option Cpu
go zero code rest c = none
go (suc fuel) code [] c = none
go (suc fuel) code (i ∷ rest) c = elim (next i) [
  | falls ↦ go fuel code rest (exec i c)
  | stops ↦ some c
  | jumps l ↦ go fuel code (after_label l code) c
  | jumps_if k l ↦ go fuel code (if holds k c.compared then after_label l code else rest) c
]

-- `KernelFunc`: the memory, and the pointer passed in `x0`, give the value returned in `x0`.
abbrev pub KernelFunc : Type 0
KernelFunc = (ℕ → ℕ) → ℕ → ℕ

-- `ExprKernelFunc`: the field planes, null where a field is missing, and the scratchpad give the
-- mask and the scratchpad as the kernel leaves it; `none` is a fault.
abbrev pub ExprKernelFunc : Type 0
ExprKernelFunc = List (Option (List ℕ)) → List ℕ → Option (ℕ × List ℕ)

-- A call with one argument, from any state.
abbrev pub enter : Cpu → (ℕ → ℕ) → ℕ → Cpu
enter c memory pointer = record c { reg = put c.reg 0 pointer; mem = memory }

-- `asmjit::JitRuntime::add`, at its two types: `none` is an error code.
pub record JitRuntime : Type 0 where
  pub add_code : List Instr → Option KernelFunc
  pub add_expr : List Instr → Option ExprKernelFunc

-- A function that the runtime hands out runs the code that it was given, from some state.
abbrev pub RunsCode : JitRuntime → Type 0
RunsCode rt =
    (code : List Instr) (fn : KernelFunc)
    → rt.add_code code ≡ some fn
    → (memory : ℕ → ℕ) (pointer : ℕ)
    → (c : Cpu) × (fn memory pointer ≡ (run code (enter c memory pointer)).reg 0)
