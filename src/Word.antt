-- ===== src/Word.antt =====
-- Machine words. A `uint64_t` is a native number below 2 ^ 64; `&`, `|`, `^` are the native bit
-- operations, and what may leave the range is cut off by `% 2 ^ 64`. `test_bit` reads one bit.
pub mod Bitwise
pub mod Shift
pub mod Ext
pub mod Compare
pub mod Count
pub mod Carry
use Prim.Native.Nat.{bit_and, bit_or, bit_xor}
use apex_engine.Common.{ℕ, zero, suc, ◌+◌, ◌-◌, ◌*◌, ◌/◌, ◌%◌, ◌^◌, ◌<◌, Bool, ◌==◌}

abbrev pub two64 : ℕ
two64 = 0x1_0000_0000_0000_0000

-- `~0ULL`
abbrev pub ones64 : ℕ
ones64 = 0xffff_ffff_ffff_ffff

abbrev pub IsU64 : ℕ → Type 0
IsU64 a = a < two64

-- `(a >> i) & 1`, as a truth value
unfoldable pub test_bit : ℕ → ℕ → Bool
test_bit a zero = a % 2 == 1
test_bit a (suc i) = test_bit (a / 2) i

-- `a >> k` and `a << k` on `uint64_t`
unfoldable pub shr : ℕ → ℕ → ℕ
shr a k = a / 2 ^ k

unfoldable pub shl64 : ℕ → ℕ → ℕ
shl64 a k = (a * 2 ^ k) % two64

-- `~a` on `uint64_t`
unfoldable pub not64 : ℕ → ℕ
not64 a = bit_xor a ones64

-- The unsigned sum, which wraps.
unfoldable pub add64 : ℕ → ℕ → ℕ
add64 a b = (a + b) % two64

-- The unsigned difference, which wraps.
unfoldable pub sub64 : ℕ → ℕ → ℕ
sub64 a b = (a + (two64 - b)) % two64
