-- ===== src/Common/Ints.antt =====
-- Signed numbers: an `int` or `int64_t`.
use Prim.Native.Nat.{ℕ}

-- `negsuc n` is -(n + 1).
pub data ℤ : Type 0 where
  pos : ℕ → ℤ
  negsuc : ℕ → ℤ
