-- ===== src/Tests/Machine.antt =====
-- A concrete platform: two-lane vectors, as NEON has them, and a runtime that interprets the code.
use Prim.Native.Nat.{bit_and, bit_xor}
use apex_engine.Common.{
  zero, suc, List, get_or, ◌*◌, ◌/◌, ◌%◌, ◌>>=◌, ℕ, ◌+◌, ◌-◌, ◌^◌, ◌≤◌, ◌≡◌, refl, sym, ap,
  ℕ_discrete, arith, [], ◌∷◌, Option, none, some, set, length, length-set, get_or-set_self,
  get_or-set_ne, ltb, leb, ◌&&◌, ◌==◌, if◌then◌else◌, true, Name, Map, ◌∙◌,
}
use apex_engine.Word.{shr, shl64}
use apex_engine.Slicer.{ColumnBuffer, Highway, word}
use apex_engine.Slicer.Vectors.{IsLanewise}
use apex_engine.Arm64.{
  Instr, Cpu, JitRuntime, KernelFunc, ExprKernelFunc, RunsCode, run, enter, go, put,
}
use apex_engine.Engine.{Platform}
use apex_engine.Engine.Chunks.{IsPlatform}

abbrev pub neon : Highway
neon = record {
  Vector = λ cap. ℕ × ℕ;
  lanes = λ cap. 2;
  load = λ cap a k. (word a k, word a (k + 1));
  store = λ cap v a k. set (set a k v.0) (k + 1) v.1;
  broadcast = λ cap m. (m, m);
  v_and = λ cap u v. (bit_and u.0 v.0, bit_and u.1 v.1);
  v_xor = λ cap u v. (bit_xor u.0 v.0, bit_xor u.1 v.1);
  shift_right = λ cap k v. (shr v.0 k, shr v.1 k);
  shift_left = λ cap k v. (shl64 v.0 k, shl64 v.1 k);
  lane = λ cap v i. if i == 0 then v.0 else v.1;
}

stored :
    (v : ℕ × ℕ) (a : ColumnBuffer) (k j : ℕ)
    → k + 2 ≤ length a
    → word (set (set a k v.0) (k + 1) v.1) j
      ≡ (if leb k j && ltb j (k + 2) then (if j - k == 0 then v.0 else v.1) else word a j)
stored v a k j h = elim (ℕ_discrete j (k + 1)) [
  | yes here ↦ rw here (
      get_or-set_self (set a k v.0) (k + 1) v.1 0 (omega (arith, length-set a k v.0))
      ∙ ground arith)
  | no there ↦
      get_or-set_ne (set a k v.0) (k + 1) j v.1 0 (λ e. there (sym e)) ∙ (elim (ℕ_discrete j k) [
        | yes low ↦ rw low (get_or-set_self a k v.0 0 (omega arith) ∙ ground arith)
        | no out ↦ get_or-set_ne a k j v.0 0 (λ e. out (sym e)) ∙ ground arith
      ])
]

pub neon-IsLanewise : IsLanewise neon
neon-IsLanewise = record {
  rounds = λ e. 2 ^ e;
  rounds_lanes = λ e. omega arith;
  lane-load = λ cap a k i h fits. ground arith;
  length-store = λ cap v a k. length-set (set a k v.0) (k + 1) v.1 ∙ length-set a k v.0;
  word-store = λ cap v a k j fits. stored v a k j fits;
  lane-broadcast = λ cap m i h. ground arith;
  lane-v_and = λ cap u v i h. ground arith;
  lane-v_xor = λ cap u v i h. ground arith;
  lane-shift_right = λ cap k v i h. ground arith;
  lane-shift_left = λ cap k v i h. ground arith;
}

-- A machine at rest.
abbrev pub idle : Cpu
idle = record { reg = λ r. 0; mem = λ a. 0; sp = 65536; compared = (0, 0) }

-- The memory of an expression kernel: pointers to the planes at 4096, those of field `k` at
-- 8192 + 512 * k, and the scratchpad at 16384.
laid_out : List (Option ColumnBuffer) → List ℕ → ℕ → ℕ
laid_out planes scratchpad a =
    let plane : ColumnBuffer = elim (get_or planes ((a - 8192) / 512) none) [
      | none ↦ []
      | some b ↦ b
    ] in
    let pointer : ℕ = elim (get_or planes ((a - 4096) / 8) none) [
      | none ↦ 0
      | some b ↦ 8192 + 64 * (a - 4096)
    ] in
    if ltb a 8192
    then pointer
    else (if ltb a 16384
        then get_or plane ((a - 8192) % 512 / 8) 0
        else get_or scratchpad ((a - 16384) / 8) 0)

words_at : (count start : ℕ) → (ℕ → ℕ) → List ℕ
words_at zero start mem = []
words_at (suc count) start mem = mem start ∷ words_at count (start + 8) mem

pub run_expr : List Instr → ExprKernelFunc
run_expr code planes scratchpad = do
  let start = record idle {
    reg = put (put idle.reg 0 4096) 1 16384;
    mem = laid_out planes scratchpad;
  }
  c ← go 100000 code code start
  some (c.reg 0, words_at (length scratchpad) 16384 c.mem)

-- The runtime calls the code with every other register zero; an expression's code gets fuel for
-- 100,000 instructions.
abbrev pub interpreter : JitRuntime
interpreter = record {
  add_code = λ code. some (λ memory p. (run code (enter idle memory p)).reg 0);
  add_expr = λ code. some (run_expr code);
}

called : Option KernelFunc → (ℕ → ℕ) → ℕ → ℕ
called none memory p = 0
called (some fn) memory p = fn memory p

pub interpreter-RunsCode : RunsCode interpreter
unfolding called
interpreter-RunsCode code fn e memory p =
    (idle, ap (λ (o : Option KernelFunc). called o memory p) (sym e))

pub first : (V : Type 0) → Map V → Option (Name × V)
first V m = elim m [ [] ↦ none | x ∷ rest ↦ some x ]

abbrev pub device : Platform
device = record {
  hw = neon;
  runtime = interpreter;
  buffer_address = 4096;
  scratch_available = true;
  first_entry = first;
}

pub device-IsPlatform : IsPlatform device
unfolding first
device-IsPlatform = record {
  lanewise = neon-IsLanewise;
  runs_code = interpreter-RunsCode;
  room = omega arith;
  empty_map = λ V. refl;
  one_entry = λ V k x. refl;
}
