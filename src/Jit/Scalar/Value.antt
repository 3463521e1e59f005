-- ===== src/Jit/Scalar/Value.antt =====
-- What an expression means on one row: the specification of its kernels.
use Prim.Native.Nat.{bit_and, bit_or}
use apex_engine.Common.{ℕ, ◌≡◌, refl, Bool, Option, none, some, ltb, ◌==◌, if◌then◌else◌, Name}
use apex_engine.Word.{add64, sub64}
use apex_engine.Ir.{
  NodePool, NodeKind, node_at, load, const, add, sub, gt, lt, eq, and, or, not_, select, lsl, lsr,
}
use apex_engine.Jit.Emit.{to_u64, c_string}

abbrev pub flag : Bool → ℕ
flag b = if b then 1 else 0

-- The operations on unsigned 64-bit numbers; a comparison gives 1 or 0.
abbrev pub operation : NodeKind → ℕ → ℕ → Option ℕ
operation load x y = none
operation const x y = none
operation add x y = some (add64 x y)
operation sub x y = some (sub64 x y)
operation gt x y = some (flag (ltb y x))
operation lt x y = some (flag (ltb x y))
operation eq x y = some (flag (x == y))
operation and x y = some (bit_and x y)
operation or x y = some (bit_or x y)
operation not_ x y = none
operation select x y = none
operation lsl x y = none
operation lsr x y = none

-- Node `i` has value `v` on a row whose fields are `field`.
pub data Value (p : NodePool) (field : Name → ℕ) : ℕ → ℕ → Type 0 where
  loaded :
      {i : ℕ}
      → (node_at p i).kind ≡ load
      → Value p field i (field (c_string (node_at p i).field_name))
  constant :
      {i : ℕ} → (node_at p i).kind ≡ const → Value p field i (to_u64 (node_at p i).const_value)
  binary :
      {i a b x y v : ℕ}
      → (node_at p i).left ≡ some a
      → (node_at p i).right ≡ some b
      → Value p field a x
      → Value p field b y
      → operation (node_at p i).kind x y ≡ some v
      → Value p field i v

module _ {p : NodePool} {field : Name → ℕ} where
  pub value_of_load :
      {i v : ℕ}
      → (node_at p i).kind ≡ load
      → Value p field i v
      → field (c_string (node_at p i).field_name) ≡ v
  value_of_load e (loaded h) = refl
  value_of_load e (constant h) = cc
  value_of_load {i} e (binary {x} {y} l r a b h) = let h' = rw e at h in cc h'

  pub value_of_const :
      {i v : ℕ}
      → (node_at p i).kind ≡ const
      → Value p field i v
      → to_u64 (node_at p i).const_value ≡ v
  value_of_const e (loaded h) = cc
  value_of_const e (constant h) = refl
  value_of_const {i} e (binary {x} {y} l r a b h) = let h' = rw e at h in cc h'
