-- ===== src/Jit/Emit/Constants.antt =====
-- The four moves of `emit_mov_imm64` leave the constant in the register.
use Prim.Native.Nat.{bit_and}
use apex_engine.Common.{
  ℤ, pos, negsuc, ℕ, ◌+◌, ◌-◌, ◌<◌, ◌≤◌, ◌≡◌, ◌≢◌, dec_lt, refl, ◌∙◌, ap, arith, ◌&&◌, ltb, leb,
  if◌then◌else◌,
}
use apex_engine.Word.{IsU64, test_bit, shr, shl64, not64}
use apex_engine.Word.Bitwise.{test_bit-bit_and, test_bit-bit_or}
use apex_engine.Word.Shift.{test_bit-shr, test_bit-shl64, test_bit-ones, test_bit-not64}
use apex_engine.Word.Ext.{u64_ext, bit_or-IsU64, bit_and-IsU64}
use apex_engine.Arm64.{Cpu, exec, insert16}
use apex_engine.Arm64.Flow.{execs}
use apex_engine.Jit.Emit.{to_u64, emit_mov_imm64}

-- The 16 bits of `a` from `s` on.
abbrev part : ℕ → ℕ → ℕ
part a s = bit_and (shr a s) 0xffff

test_bit-part : (a s i : ℕ) → test_bit (part a s) i ≡ (test_bit a (s + i) && ltb i 16)
test_bit-part a s i =
    ground (arith, test_bit-bit_and (shr a s) 0xffff i, test_bit-shr a s i, test_bit-ones 16 i)

test_bit-shl64-part :
    (a s i : ℕ)
    → s ≤ i
    → i < 64
    → test_bit (shl64 (part a s) s) i ≡ (test_bit a i && ltb (i - s) 16)
test_bit-shl64-part a s i h p =
    let same : test_bit a (s + (i - s)) ≡ test_bit a i =
      ap (test_bit a) {x = s + (i - s)} {y = i} (omega arith) in
    ground (arith, test_bit-shl64 (part a s) s i, test_bit-part a s (i - s), same)

-- A `movk` of one part of `c` puts that part of `c` into `a`.
test_bit-insert16 :
    (a c s i : ℕ)
    → i < 64
    → test_bit (insert16 a (part c s) s) i
      ≡ (if leb s i && ltb i (s + 16) then test_bit c i else test_bit a i)
unfolding insert16
test_bit-insert16 a c s i p = elim (dec_lt i s) [
  | yes low ↦ ground (
    arith,
    test_bit-bit_or (bit_and a (not64 (shl64 0xffff s))) (shl64 (part c s) s) i,
    test_bit-bit_and a (not64 (shl64 0xffff s)) i,
    test_bit-not64 (shl64 0xffff s) i,
    test_bit-shl64 0xffff s i,
    test_bit-shl64 (part c s) s i,
    low,
  )
  | no high ↦ ground (
    arith,
    test_bit-bit_or (bit_and a (not64 (shl64 0xffff s))) (shl64 (part c s) s) i,
    test_bit-bit_and a (not64 (shl64 0xffff s)) i,
    test_bit-not64 (shl64 0xffff s) i,
    test_bit-shl64 0xffff s i,
    test_bit-ones 16 (i - s),
    test_bit-shl64-part c s i,
    high,
  )
]

abbrev moved : ℕ → ℕ
moved c =
    insert16 (insert16 (insert16 (shl64 (bit_and c 0xffff) 0) (part c 16) 16) (part c 32) 32)
      (part c 48) 48

test_bit-moved : (c i : ℕ) → i < 64 → test_bit (moved c) i ≡ test_bit c i
test_bit-moved c i p =
    let low = shl64 (bit_and c 0xffff) 0 in
    let one = insert16 low (part c 16) 16 in
    let two = insert16 one (part c 32) 32 in
    let same : test_bit (bit_and c 0xffff) (i - 0) ≡ test_bit (bit_and c 0xffff) i =
      ap (test_bit (bit_and c 0xffff)) {x = i - 0} {y = i} (omega arith) in
    ground (
      arith,
      test_bit-insert16 two c 48 i,
      test_bit-insert16 one c 32 i,
      test_bit-insert16 low c 16 i,
      test_bit-shl64 (bit_and c 0xffff) 0 i,
      same,
      test_bit-bit_and c 0xffff i,
      test_bit-ones 16 i,
    )

shl64-IsU64 : (a s : ℕ) → IsU64 (shl64 a s)
unfolding shl64
shl64-IsU64 a s = omega arith

moved-IsU64 : (a c s : ℕ) → IsU64 a → IsU64 (insert16 a (part c s) s)
unfolding insert16
moved-IsU64 a c s h = bit_or-IsU64 _ _ (bit_and-IsU64 a _ h) (shl64-IsU64 (part c s) s)

moved_lem : (c : ℕ) → IsU64 c → moved c ≡ c
moved_lem c h =
    u64_ext
      (moved-IsU64 _ c 48
        (moved-IsU64 _ c 32 (moved-IsU64 _ c 16 (shl64-IsU64 (bit_and c 0xffff) 0))))
      h (test_bit-moved c)

-- The code of `emit_mov_imm64` puts any 64-bit constant into its register, which is not `xzr`, and
-- changes neither memory nor the stack pointer.
pub execs-emit_mov_imm64 :
    (dst imm : ℕ)
    → dst ≢ 31
    → IsU64 imm
    → (c : Cpu)
    → let d = execs (emit_mov_imm64 dst imm) c in
      (d.reg dst ≡ imm) × (d.mem ≡ c.mem) × (d.sp ≡ c.sp)
unfolding execs exec emit_mov_imm64
execs-emit_mov_imm64 dst imm h small c =
    let value : (execs (emit_mov_imm64 dst imm) c).reg dst ≡ moved imm = ground arith in
    (value ∙ moved_lem imm small, refl, refl)

pub execs-emit_mov_imm64_other :
    (dst imm : ℕ) (c : Cpu) (x : ℕ) → x ≢ dst → (execs (emit_mov_imm64 dst imm) c).reg x ≡ c.reg x
unfolding execs exec emit_mov_imm64
execs-emit_mov_imm64_other dst imm c x h = ground arith

pub to_u64-IsU64 : (z : ℤ) → IsU64 (to_u64 z)
unfolding to_u64
to_u64-IsU64 (pos n) = omega arith
to_u64-IsU64 (negsuc n) = omega arith
