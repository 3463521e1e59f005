-- ===== src/Slicer/Masks.antt =====
-- The masked swap bit by bit: which bit of which row a stage moves where.
use Prim.Native.Nat.{bit_xor}
use native.Mathlib.Nat.{mod-le}
use mathlib.Core.Bool.{beq}
use apex_engine.Common.{
  ℕ, ◌+◌, ◌-◌, ◌*◌, ◌%◌, ◌≤◌, ◌<◌, ◌≡◌, refl, ◌∙◌, ap, ap₂, arith, Bool, true, false, ◌&&◌, ltb,
  leb, xor, holds_below, holds_below-at,
}
use apex_engine.Word.{test_bit, shr, shl64}
use apex_engine.Word.Bitwise.{test_bit-bit_and, test_bit-bit_xor}
use apex_engine.Word.Shift.{test_bit-shr, test_bit-shl64}
use apex_engine.Slicer.Vectors.{swap_mask, upper_word, lower_word}

-- `m` has the bits of the lower half of each group of `2 * s`.
pub record IsMask (s m : ℕ) : Type 0 where
  pub bits : (c : ℕ) → c < 64 → test_bit m c ≡ ltb (c % (2 * s)) s
  pub shifted : (c : ℕ) → s ≤ c → ltb ((c - s) % (2 * s)) s ≡ leb s (c % (2 * s))

module _ {s m : ℕ} (k : IsMask s m) (x y : ℕ) where
  mask_bit :
      (c : ℕ)
      → c < 64
      → test_bit (swap_mask s m x y) c
        ≡ (xor (test_bit x (s + c)) (test_bit y c) && ltb (c % (2 * s)) s)
  mask_bit c h =
      test_bit-bit_and (bit_xor (shr x s) y) m c
      ∙ ap₂ ◌&&◌
          (test_bit-bit_xor (shr x s) y c ∙ ap (λ b. xor b (test_bit y c)) (test_bit-shr x s c))
          (k.bits c h)

  pub lower_bit_keep :
      (c : ℕ) → c < 64 → s ≤ c % (2 * s) → test_bit (lower_word s m x y) c ≡ test_bit y c
  unfolding lower_word
  lower_bit_keep c h p = ground (arith, test_bit-bit_xor y (swap_mask s m x y) c, mask_bit c h)

  pub lower_bit_take :
      (c : ℕ) → c < 64 → c % (2 * s) < s → test_bit (lower_word s m x y) c ≡ test_bit x (s + c)
  unfolding lower_word
  lower_bit_take c h p = ground (arith, test_bit-bit_xor y (swap_mask s m x y) c, mask_bit c h)

  pub upper_bit_keep :
      (c : ℕ) → c < 64 → c % (2 * s) < s → test_bit (upper_word s m x y) c ≡ test_bit x c
  unfolding upper_word
  upper_bit_keep c h p = ground (
    arith,
    test_bit-bit_xor x (shl64 (swap_mask s m x y) s) c,
    test_bit-shl64 (swap_mask s m x y) s c,
    mask_bit (c - s),
    k.shifted c,
  )

  pub upper_bit_take :
      (c : ℕ) → c < 64 → s ≤ c % (2 * s) → test_bit (upper_word s m x y) c ≡ test_bit y (c - s)
  unfolding upper_word
  upper_bit_take c h p =
      let up : s ≤ c = omega (arith, mod-le c (2 * s)) in
      let back : test_bit x (s + (c - s)) ≡ test_bit x c =
        ap (test_bit x) {x = s + (c - s)} {y = c} (omega arith) in
      ground (
        arith,
        test_bit-bit_xor x (shl64 (swap_mask s m x y) s) c,
        test_bit-shl64 (swap_mask s m x y) s c,
        mask_bit (c - s),
        k.shifted c,
      )

beq-eq : (a b : Bool) → beq a b ≡ true → a ≡ b
beq-eq true true h = refl
beq-eq true false h = cc
beq-eq false true h = cc
beq-eq false false h = refl

-- A mask is checked bit by bit.
pub bits_by_table :
    (s m : ℕ)
    → holds_below (λ c. beq (test_bit m c) (ltb (c % (2 * s)) s)) 64 ≡ true
    → (c : ℕ) → c < 64
    → test_bit m c ≡ ltb (c % (2 * s)) s
bits_by_table s m table c h = beq-eq _ _ (holds_below-at _ 64 c table h)
