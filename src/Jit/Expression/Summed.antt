-- ===== src/Jit/Expression/Summed.antt =====
-- The planes behind an adder of the kernel.
use apex_engine.Common.{ℕ, suc, ◌+◌, ◌<◌, ◌≡◌, Bool, Name}
use apex_engine.Word.{IsU64}
use apex_engine.Word.Compare.{IsPlane}
use apex_engine.Arm64.{Cpu}
use apex_engine.Arm64.Flow.{execs}
use apex_engine.Ir.{NodePool, node_at, add, sub}
use apex_engine.Jit.Expression.{full_adder, full_subtractor}
use apex_engine.Jit.Expression.Columns.{
  Column, field_column, const_column, sum_column, difference_column, Column-IsU64,
}
use apex_engine.Jit.Expression.Sums.{
  IsCarry, no_carry, one_carry, complement, Adds, full_adder-Adds, full_subtractor-Adds,
  full_adder-sums, full_subtractor-sums,
}
use apex_engine.Jit.Expression.Steps.{Sums, adds, subtracts, Ready}

-- The planes behind the adder.
pub record Summed (p : NodePool) (field : ℕ → Name → ℕ) (b i k : ℕ) (c d : Cpu) : Type 0 where
  pub value : (v : ℕ → ℕ) → Column p field i v → IsPlane b v (d.reg 5)
  pub next :
      (start : ℕ → Bool) (x y : ℕ → ℕ)
      → Sums p field i start x y
      → IsCarry start x y (suc b) (d.reg (21 + k))
  pub adder : Adds k c d

module _ {p : NodePool} {field : ℕ → Name → ℕ}
    (words : (r : ℕ) (name : Name) → IsU64 (field r name)) {b i k : ℕ} (in_word : b < 64)
    (small : k < 8) {c d : Cpu} (ready : Ready p field b i c d)
    (into : (start : ℕ → Bool) (x y : ℕ → ℕ)
      → Sums p field i start x y
      → IsCarry start x y b (d.reg (21 + k))) where
  add_value :
      (node_at p i).kind ≡ add
      → {v : ℕ → ℕ} → Column p field i v
      → IsPlane b v ((execs (full_adder (21 + k)) d).reg 5)
  add_value e (field_column f) = cc
  add_value e (const_column f) = cc
  add_value e (difference_column f l r u v) = cc
  add_value e (sum_column {a} {b = a'} {x} {y} f l r u v) =
      (full_adder-sums k small in_word d (ready.left a x l u) (ready.right a' y r v)
        (into no_carry x y (adds f l r u v))).0

  add_next :
      (node_at p i).kind ≡ add
      → {start : ℕ → Bool} {x y : ℕ → ℕ} → Sums p field i start x y
      → IsCarry start x y (suc b) ((execs (full_adder (21 + k)) d).reg (21 + k))
  add_next e (subtracts f l r u v) = cc
  add_next e (adds {a} {b = a'} {x} {y} f l r u v) =
      (full_adder-sums k small in_word d (ready.left a x l u) (ready.right a' y r v)
        (into no_carry x y (adds f l r u v))).1

  sub_value :
      (node_at p i).kind ≡ sub
      → {v : ℕ → ℕ} → Column p field i v
      → IsPlane b v ((execs (full_subtractor (21 + k)) d).reg 5)
  sub_value e (field_column f) = cc
  sub_value e (const_column f) = cc
  sub_value e (sum_column f l r u v) = cc
  sub_value e (difference_column {a} {b = a'} {x} {y} f l r u v) =
      (full_subtractor-sums k small in_word d (ready.left a x l u) (ready.right a' y r v)
        (Column-IsU64 words v) (into one_carry x (complement y) (subtracts f l r u v))).0

  sub_next :
      (node_at p i).kind ≡ sub
      → {start : ℕ → Bool} {x y : ℕ → ℕ} → Sums p field i start x y
      → IsCarry start x y (suc b) ((execs (full_subtractor (21 + k)) d).reg (21 + k))
  sub_next e (adds f l r u v) = cc
  sub_next e (subtracts {a} {b = a'} {x} {y} f l r u v) =
      (full_subtractor-sums k small in_word d (ready.left a x l u) (ready.right a' y r v)
        (Column-IsU64 words v) (into one_carry x (complement y) (subtracts f l r u v))).1

  pub add-Summed : (node_at p i).kind ≡ add → Summed p field b i k d (execs (full_adder (21 + k)) d)
  add-Summed e = record {
    value = λ v w. add_value e w;
    next = λ start x y s. add_next e s;
    adder = full_adder-Adds k d;
  }

  pub sub-Summed :
      (node_at p i).kind ≡ sub → Summed p field b i k d (execs (full_subtractor (21 + k)) d)
  sub-Summed e = record {
    value = λ v w. sub_value e w;
    next = λ start x y s. sub_next e s;
    adder = full_subtractor-Adds k d;
  }
