-- ===== src/Jit/ConstPool.antt =====
-- `ConstPool` of src/jit/compiler.cpp: the bit planes of constants, each made once and kept. Where
-- `new` puts the planes is a parameter.
pub mod Planes
use apex_engine.Common.{
  ℕ, zero, suc, ◌+◌, ℤ, pos, negsuc, Bool, true, false, not, List, [], ◌∷◌, Option, none, some,
  length, ◌==◌, if◌then◌else◌,
}
use apex_engine.Word.{test_bit, ones64}

unfoldable pub int_eq : ℤ → ℤ → Bool
int_eq (pos m) (pos n) = m == n
int_eq (pos m) (negsuc n) = false
int_eq (negsuc m) (pos n) = false
int_eq (negsuc m) (negsuc n) = m == n

-- `(value >> bit) & 1` on an `int64_t`, whose shift is arithmetic.
unfoldable pub int_bit : ℤ → ℕ → Bool
int_bit (pos n) bit = test_bit n bit
int_bit (negsuc n) bit = not (test_bit n bit)

-- The loop that fills the planes from `bit` on, `left` of them.
unfoldable pub planes_from : (left bit : ℕ) → ℤ → List ℕ
planes_from zero bit value = []
planes_from (suc left) bit value =
    (if int_bit value bit then ones64 else 0) ∷ planes_from left (bit + 1) value

-- 64 planes, and the address that `new` gave them.
pub record ConstPlanes : Type 0 where
  pub address : ℕ
  pub bit_planes : List ℕ

abbrev pub ConstPool : Type 0
ConstPool = List (ℤ × ConstPlanes)

unfoldable pub find_planes : ℤ → ConstPool → Option ConstPlanes
find_planes value [] = none
find_planes value ((v, planes) ∷ pools) =
    if int_eq v value then some planes else find_planes value pools

-- `get_or_create`; `fresh n` is the address of the allocation behind `n` others.
unfoldable pub get_or_create : (fresh : ℕ → ℕ) → ℤ → ConstPool → ConstPlanes × ConstPool
get_or_create fresh value pools = elim (find_planes value pools) [
  | some planes ↦ (planes, pools)
  | none ↦
      let made : ConstPlanes = record {
        address = fresh (length pools);
        bit_planes = planes_from 64 0 value;
      } in
      (made, (value, made) ∷ pools)
]
