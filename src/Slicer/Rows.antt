-- ===== src/Slicer/Rows.antt =====
-- The inner loops: a masked swap between two adjacent runs of rows.
use apex_engine.Common.{
  ℕ, zero, suc, ◌+◌, ◌-◌, ◌*◌, ◌≤◌, ◌<◌, ◌≡◌, ◌⊎◌, inl, inr, refl, ◌∙◌, ap₂, arith, length, lt→ltb,
  le→ltb_false, dec_lt,
}
use apex_engine.Slicer.{ColumnBuffer, Highway, word, swap_rows, row_loop}
use apex_engine.Slicer.Vectors.{
  IsLanewise, Within, upper_word, lower_word, word-swap_rows_upper, word-swap_rows_lower,
  word-swap_rows_other, length-swap_rows,
}

-- `b` is `a` with rows `lo .. hi` and `lo + s .. hi + s` swapped under the mask.
pub record IsSwapped (s m lo hi : ℕ) (a b : ColumnBuffer) : Type 0 where
  pub same_length : length b ≡ length a
  pub upper : (j : ℕ) → Within lo hi j → word b j ≡ upper_word s m (word a j) (word a (j + s))
  pub lower :
      (j : ℕ) → Within (lo + s) (hi + s) j → word b j ≡ lower_word s m (word a (j - s)) (word a j)
  pub other : (j : ℕ) → (j < lo) ⊎ (hi ≤ j) → (j < lo + s) ⊎ (hi + s ≤ j) → word b j ≡ word a j

pub IsSwapped-empty : (s m k : ℕ) (a : ColumnBuffer) → IsSwapped s m k k a a
IsSwapped-empty s m k a = record {
  same_length = refl;
  upper = λ j h. absurd (omega arith);
  lower = λ j h. absurd (omega arith);
  other = λ j p q. refl;
}

-- Two runs that follow one another, while their rows stay apart.
pub IsSwapped-append :
    (s m lo mid hi : ℕ) {a b c : ColumnBuffer}
    → lo ≤ mid
    → mid ≤ hi
    → hi ≤ lo + s
    → IsSwapped s m lo mid a b
    → IsSwapped s m mid hi b c
    → IsSwapped s m lo hi a c
IsSwapped-append s m lo mid hi {a} {b} {c} p q r u v = record {
  same_length = v.same_length ∙ u.same_length;
  upper = λ j h. elim (dec_lt j mid) [
    | yes below ↦ v.other j (inl below) (inl (omega arith)) ∙ u.upper j (omega arith)
    | no above ↦
        v.upper j (omega arith)
        ∙ ap₂ (upper_word s m) (u.other j (inr (omega arith)) (inl (omega arith)))
            (u.other (j + s) (inr (omega arith)) (inr (omega arith)))
  ];
  lower = λ j h. elim (dec_lt j (mid + s)) [
    | yes below ↦ v.other j (inr (omega arith)) (inl below) ∙ u.lower j (omega arith)
    | no above ↦
        v.lower j (omega arith)
        ∙ ap₂ (lower_word s m) (u.other (j - s) (inr (omega arith)) (inl (omega arith)))
            (u.other j (inr (omega arith)) (inr (omega arith)))
  ];
  other =
      λ j up down. v.other j (omega arith) (omega arith) ∙ u.other j (omega arith) (omega arith);
}

module _ {hw : Highway} (w : IsLanewise hw) (s m : ℕ) where
  open hw use {lanes}

  step-IsSwapped :
      (k : ℕ) (a : ColumnBuffer)
      → lanes s ≤ s
      → k + s + lanes s ≤ length a
      → IsSwapped s m k (k + lanes s) a (swap_rows hw s m k a)
  step-IsSwapped k a apart fits = record {
    same_length = length-swap_rows w s m k a apart fits;
    upper = word-swap_rows_upper w s m k a apart fits;
    lower = λ j h. word-swap_rows_lower w s m k a apart fits j (omega arith);
    other = λ j p q. word-swap_rows_other w s m k a apart fits j p (omega arith);
  }

  -- The loop over a run of `rounds` vectors, with fuel for as many.
  pub row_loop-IsSwapped :
      (rounds fuel k hi : ℕ) (a : ColumnBuffer)
      → 0 < lanes s
      → k + rounds * lanes s ≡ hi
      → rounds ≤ fuel
      → hi ≤ k + s
      → hi + s ≤ length a
      → IsSwapped s m k hi a (row_loop hw fuel s m k hi a)
  unfolding row_loop
  row_loop-IsSwapped zero zero k hi a pos e f apart fits =
      let e' : hi ≡ k = omega arith in rw e' (IsSwapped-empty s m k a)
  row_loop-IsSwapped zero (suc fuel) k hi a pos e f apart fits =
      let e' : hi ≡ k = omega arith in
      rw (le→ltb_false k hi (omega arith), e') (IsSwapped-empty s m k a)
  row_loop-IsSwapped (suc rounds) zero k hi a pos e f apart fits = absurd (omega arith)
  row_loop-IsSwapped (suc rounds) (suc fuel) k hi a pos e f apart fits =
      let more : k + lanes s + rounds * lanes s ≡ hi = omega arith in
      let now = step-IsSwapped k a (omega arith) (omega arith) in
      rw (lt→ltb k hi (omega arith)) (
        IsSwapped-append s m k (k + lanes s) hi (omega arith) (omega arith) apart now (
          row_loop-IsSwapped rounds fuel (k + lanes s) hi (swap_rows hw s m k a) pos more
            (omega arith) (omega arith) (rw now.same_length fits)))
