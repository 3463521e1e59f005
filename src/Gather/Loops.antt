-- ===== src/Gather/Loops.antt =====
-- The loops of `gather_field`, each by its invariant.
use apex_engine.Common.{
  ℕ, zero, suc, ◌+◌, ◌≤◌, ◌<◌, ◌≡◌, refl, ◌∙◌, arith, some, length, set, get_or-set_self,
  get_or-set_ne, length-set, ltb, leb, Bool-cases, inl, inr, ltb→lt,
}
use apex_engine.Slicer.{ColumnBuffer, word}
use apex_engine.Gather.{Bytes, load_row, gather_four, gather_rest, pad_zero}

-- `b` has the first `i` rows of `v`, and 64 words in all.
pub record IsFilled (v : ℕ → ℕ) (i : ℕ) (b : ColumnBuffer) : Type 0 where
  pub size : length b ≡ 64
  pub rows : (r : ℕ) → r < i → word b r ≡ v r

pub IsFilled-set :
    {v : ℕ → ℕ} {i : ℕ} {b : ColumnBuffer} (k j : ℕ)
    → i < 64
    → k ≡ i
    → j ≡ i + 1
    → IsFilled v i b
    → IsFilled v j (set b k (v k))
IsFilled-set {v} {i} {b} k j h at e f = record {
  size = length-set b k (v k) ∙ f.size;
  rows = λ r p. elim (Bool-cases (ltb r i)) [
    | inl below ↦ get_or-set_ne b k r (v k) 0 (ground arith) ∙ f.rows r (ltb→lt r i below)
    | inr top ↦
        let same : r ≡ k = ground arith in
        rw same (get_or-set_self b k (v k) 0 (omega (arith, f.size)))
  ];
}

-- Every row that is asked for lies in the data, and `v` are the fields' values.
pub record Readable (bytes : Bytes) (base row_stride offset rows : ℕ) (v : ℕ → ℕ) : Type 0 where
  pub row : (r : ℕ) → r < rows → load_row bytes base row_stride offset r ≡ some (v r)

module _ {bytes : Bytes} {base row_stride offset rows : ℕ} {v : ℕ → ℕ}
    (readable : Readable bytes base row_stride offset rows v) (small : rows ≤ 64) where
  pub gather_rest-IsFilled :
      (fuel i : ℕ) (out : ColumnBuffer)
      → i ≤ rows
      → rows ≤ i + fuel
      → IsFilled v i out
      → (b : ColumnBuffer) × (gather_rest bytes base row_stride offset rows fuel i out
          ≡ some (rows, b))
        × IsFilled v rows b
  unfolding gather_rest
  gather_rest-IsFilled zero i out h f g =
      let e : i ≡ rows = omega arith in (out, rw e refl, rw (← e) g)
  gather_rest-IsFilled (suc fuel) i out h f g = elim (Bool-cases (ltb i rows)) [
    | inl more ↦
        let p : i < rows = ltb→lt i rows more in
        rw (more, readable.row i p)
          (gather_rest-IsFilled fuel (i + 1) (set out i (v i)) (omega arith) (omega arith)
            (IsFilled-set i (i + 1) (omega arith) refl refl g))
    | inr done ↦ let e : i ≡ rows = ground arith in (out, rw (done, e) refl, rw (← e) g)
  ]

  pub gather_four-IsFilled :
      (fuel i : ℕ) (out : ColumnBuffer)
      → i ≤ rows
      → IsFilled v i out
      → (j : ℕ) × (b : ColumnBuffer) × (gather_four bytes base row_stride offset rows fuel i out
          ≡ some (j, b))
        × (j ≤ rows)
        × IsFilled v j b
  unfolding gather_four
  gather_four-IsFilled zero i out h g = (i, out, refl, h, g)
  gather_four-IsFilled (suc fuel) i out h g = elim (Bool-cases (leb (i + 4) rows)) [
    | inl more ↦
        let p : i + 4 ≤ rows = ground arith in
        rw
          (
            more,
            readable.row (i + 0) (omega arith),
            readable.row (i + 1) (omega arith),
            readable.row (i + 2) (omega arith),
            readable.row (i + 3) (omega arith),
          )
          (gather_four-IsFilled fuel (i + 4) _ (omega arith) (
            IsFilled-set (i + 3) (i + 4) (omega arith) refl (omega arith) (
              IsFilled-set (i + 2) (i + 3) (omega arith) refl (omega arith) (
                IsFilled-set (i + 1) (i + 2) (omega arith) refl (omega arith)
                  (IsFilled-set (i + 0) (i + 1) (omega arith) (omega arith) refl g)))))
    | inr done ↦ (i, out, rw done refl, h, g)
  ]

pub pad_zero-IsFilled :
    {v : ℕ → ℕ} (fuel i : ℕ) (out : ColumnBuffer)
    → i ≤ 64
    → 64 ≤ i + fuel
    → ((r : ℕ) → i ≤ r → v r ≡ 0)
    → IsFilled v i out
    → IsFilled v 64 (pad_zero fuel i out)
unfolding pad_zero
pad_zero-IsFilled zero i out h f z g = let e : 64 ≡ i = omega arith in rw e g
pad_zero-IsFilled {v} (suc fuel) i out h f z g = elim (Bool-cases (ltb i 64)) [
  | inl more ↦
      let p : i < 64 = ltb→lt i 64 more in
      let here = rw (z i (omega arith)) at (IsFilled-set i (i + 1) p refl refl g) in
      rw more (
        pad_zero-IsFilled fuel (i + 1) (set out i 0) (omega arith) (omega arith)
          (λ r q. z r (omega arith)) here)
  | inr done ↦ let e : 64 ≡ i = ground arith in rw (done, e) g
]
