-- ===== src/Slicer/Blocks.antt =====
-- The outer loops: a whole stage, as a masked swap in each block of `2 * s` rows.
use native.Mathlib.Nat.{mul-add-mod_self_left, mod-eq_of_lt, mod-le, one-le-pow}
use apex_engine.Common.{
  ℕ, zero, suc, ◌+◌, ◌-◌, ◌*◌, ◌%◌, ◌^◌, ◌≤◌, ◌<◌, ◌≡◌, ◌⊎◌, inl, inr, refl, ◌∙◌, ap, ap₂, arith,
  length, lt→ltb, dec_lt,
}
use apex_engine.Slicer.{ColumnBuffer, Highway, word, row_loop, block_loop}
use apex_engine.Slicer.Vectors.{IsLanewise, Within, upper_word, lower_word}
use apex_engine.Slicer.Rows.{IsSwapped, row_loop-IsSwapped}

-- `b` is `a` after the masked swaps of the blocks in rows `lo .. hi`.
pub record IsStage (s m lo hi : ℕ) (a b : ColumnBuffer) : Type 0 where
  pub same_length : length b ≡ length a
  pub upper :
      (j : ℕ)
      → Within lo hi j
      → j % (2 * s) < s
      → word b j ≡ upper_word s m (word a j) (word a (j + s))
  pub lower :
      (j : ℕ)
      → Within lo hi j
      → s ≤ j % (2 * s)
      → word b j ≡ lower_word s m (word a (j - s)) (word a j)
  pub other : (j : ℕ) → (j < lo) ⊎ (hi ≤ j) → word b j ≡ word a j

mod_in_block : (d q j : ℕ) → Within (d * q) (d * q + d) j → j % d ≡ j - d * q
mod_in_block d q j h =
    let split : j ≡ d * q + (j - d * q) = omega arith in
    ap (λ (t : ℕ). t % d) split ∙ mul-add-mod_self_left d q (j - d * q) ∙ mod-eq_of_lt (omega arith)

mod_above : (d q j : ℕ) → d * q ≤ j → j % d ≤ j - d * q
mod_above d q j h =
    let split : j ≡ d * q + (j - d * q) = omega arith in
    let same : j % d ≡ (j - d * q) % d =
      ap (λ (t : ℕ). t % d) split ∙ mul-add-mod_self_left d q (j - d * q) in
    omega (arith, same, mod-le (j - d * q) d)

module _ (s m : ℕ) where
  pub IsStage-empty : (lo : ℕ) (a : ColumnBuffer) → IsStage s m lo lo a a
  IsStage-empty lo a = record {
    same_length = refl;
    upper = λ j h p. absurd (omega arith);
    lower = λ j h p. absurd (omega arith);
    other = λ j h. refl;
  }

  -- The swap of one block, which starts at a multiple of its size.
  pub one_block :
      (q : ℕ) {a b : ColumnBuffer}
      → IsSwapped s m (2 * s * q) (2 * s * q + s) a b
      → IsStage s m (2 * s * q) (2 * s * q + 2 * s) a b
  one_block q u = record {
    same_length = u.same_length;
    upper = λ j h p. u.upper j (omega (arith, mod_in_block (2 * s) q j h));
    lower = λ j h p. u.lower j (omega (arith, mod_in_block (2 * s) q j h));
    other = λ j h. u.other j (omega arith) (omega arith);
  }

  -- A block and those behind it. The mid point starts a block.
  pub IsStage-append :
      (lo q hi : ℕ) {a b c : ColumnBuffer}
      → lo ≤ 2 * s * q
      → 2 * s * q ≤ hi
      → IsStage s m lo (2 * s * q) a b
      → IsStage s m (2 * s * q) hi b c
      → IsStage s m lo hi a c
  IsStage-append lo q hi {a} {b} {c} p r u v = record {
    same_length = v.same_length ∙ u.same_length;
    upper = λ j h k. elim (dec_lt j (2 * s * q)) [
      | yes below ↦ v.other j (inl below) ∙ u.upper j (omega arith) k
      | no above ↦
          v.upper j (omega arith) k
          ∙ ap₂ (upper_word s m) (u.other j (inr (omega arith)))
              (u.other (j + s) (inr (omega arith)))
    ];
    lower = λ j h k. elim (dec_lt j (2 * s * q)) [
      | yes below ↦ v.other j (inl below) ∙ u.lower j (omega arith) k
      | no above ↦
          v.lower j (omega arith) k
          ∙ ap₂ (lower_word s m)
              (u.other (j - s) (inr (omega (arith, mod_above (2 * s) q j (omega arith)))))
              (u.other j (inr (omega arith)))
    ];
    other = λ j h. v.other j (omega arith) ∙ u.other j (omega arith);
  }

factors_le : (r l p : ℕ) → r * l ≡ p → 0 < p → (0 < l) × (r ≤ p)
factors_le r zero p e h = absurd (omega arith)
factors_le r (suc l) p e h = omega arith

-- A block of one stage.
pub block-IsSwapped :
    {hw : Highway} (w : IsLanewise hw) (e m k : ℕ) (a : ColumnBuffer)
    → k + 2 ^ suc e + 2 ^ suc e ≤ length a
    → IsSwapped
        (2 ^ suc e)
        m
        k
        (k + 2 ^ suc e)
        a
        (row_loop hw (2 ^ suc e) (2 ^ suc e) m k (k + 2 ^ suc e) a)
block-IsSwapped {hw} w e m k a fits =
    let s : ℕ = 2 ^ suc e in
    let bounds =
      factors_le (w.rounds e) (hw.lanes s) s (w.rounds_lanes e)
        (one-le-pow (suc e) 2 (omega arith)) in
    row_loop-IsSwapped w s m (w.rounds e) s k (k + s) a bounds.0
      (ap (λ (t : ℕ). k + t) (w.rounds_lanes e)) bounds.1 (omega arith) fits

abbrev SwapsBlocks : Highway → ℕ → ℕ → Type 0
SwapsBlocks hw s m =
    (k : ℕ) (a : ColumnBuffer)
    → k + s + s ≤ length a
    → IsSwapped s m k (k + s) a (row_loop hw s s m k (k + s) a)

-- The blocks from number `q` on, `left` of them, with fuel for as many.
pub block_loop-IsStage :
    (hw : Highway) (s m : ℕ)
    → 0 < s
    → SwapsBlocks hw s m
    → (left fuel q : ℕ) (a : ColumnBuffer) → 2 * s * (q + left) ≡ 64
    → left ≤ fuel
    → 64 ≤ length a
    → IsStage s m (2 * s * q) 64 a (block_loop hw fuel s m (2 * s * q) a)
unfolding block_loop
block_loop-IsStage hw s m pos one zero zero q a whole f fits =
    let e : 2 * s * q ≡ 64 = omega arith in rw e (IsStage-empty s m 64 a)
block_loop-IsStage hw s m pos one zero (suc fuel) q a whole f fits =
    let e : 2 * s * q ≡ 64 = omega arith in rw e (IsStage-empty s m 64 a)
block_loop-IsStage hw s m pos one (suc left) zero q a whole f fits = absurd (omega arith)
block_loop-IsStage hw s m pos one (suc left) (suc fuel) q a whole f fits =
    let next : 2 * s * q + 2 * s ≡ 2 * s * suc q = omega arith in
    let room : 2 * s * suc q ≤ 64 = omega arith in
    let now = one (2 * s * q) a (omega arith) in
    rw (lt→ltb (2 * s * q) 64 (omega arith), next)
      (IsStage-append s m (2 * s * q) (suc q) 64 (omega arith) room
        (rw next at (one_block s m q now))
        (block_loop-IsStage hw s m pos one left fuel (suc q)
          (row_loop hw s s m (2 * s * q) (2 * s * q + s) a) (omega arith) (omega arith)
          (rw now.same_length fits)))
