-- ===== src/Engine/Legacy.antt =====
-- The single-field path of `execute`, over all chunks.
use apex_engine.Common.{
  ℕ, zero, suc, ◌+◌, ◌-◌, ◌*◌, ◌≤◌, ◌<◌, ◌≡◌, refl, sym, ◌∙◌, ap, ap₂, arith, min, Bool, some,
  length, ltb, ltb→lt, Bool-cases, inl, inr,
}
use apex_engine.Word.{IsU64, two64, add64}
use apex_engine.Word.Count.{count_below, count_below-add, count_below-le}
use apex_engine.Slicer.{ColumnBuffer, slice}
use apex_engine.Slicer.Transpose.{length-slice}
use apex_engine.Arm64.{KernelFunc}
use apex_engine.Jit.Comparison.{compile_comparison}
use apex_engine.Gather.{Bytes, load64, load_row}
use apex_engine.Gather.Loops.{Readable}
use apex_engine.Gather.Correct.{gather_field-IsFilled}
use apex_engine.Engine.{Platform, legacy_loop}
use apex_engine.Engine.Chunks.{IsPlatform, chunk-count}

-- The field of each of the `count` rows lies in the data, and `v` are its values.
pub record HasRows (bytes : Bytes) (row_stride offset count : ℕ) (v : ℕ → ℕ) : Type 0 where
  pub rows : (r : ℕ) → r < count → load_row bytes 0 row_stride offset r ≡ some (v r)
  pub small : (r : ℕ) → r < count → IsU64 (v r)
  pub countable : count < two64

module _ {bytes : Bytes} {row_stride offset count : ℕ} {v : ℕ → ℕ}
    (input : HasRows bytes row_stride offset count v) where
  abbrev rows_in : ℕ → ℕ
  rows_in chunk = min (min 64 (count - chunk * 64)) 64

  chunk-Readable :
      (chunk : ℕ)
      → chunk * 64 < count
      → Readable bytes
          (chunk * 64 * row_stride)
          row_stride
          offset
          (rows_in chunk)
          (λ r. v (chunk * 64 + r))
  chunk-Readable chunk h = record {
    row = λ r p.
        ap (load64 bytes) {x = chunk * 64 * row_stride + r * row_stride + offset}
          {y = 0 + (chunk * 64 + r) * row_stride + offset} (omega arith)
        ∙ input.rows (chunk * 64 + r) (omega arith);
  }

  module _ (pf : Platform) (ok : IsPlatform pf) (t : ℕ) (fn : KernelFunc) (ht : IsU64 t)
      (e : compile_comparison pf.runtime t ≡ some fn) where
    abbrev above : ℕ → Bool
    above r = ltb t (v r)

    -- The running total after a chunk.
    total-step :
        (chunk total found : ℕ)
        → chunk * 64 < count
        → total ≡ count_below (min (chunk * 64) count) above
        → found ≡ count_below (rows_in chunk) (λ r. above (chunk * 64 + r))
        → add64 total found ≡ count_below (min ((chunk + 1) * 64) count) above
    unfolding add64
    total-step chunk total found h p q =
        let here : min (chunk * 64) count ≡ chunk * 64 = omega arith in
        let next : min ((chunk + 1) * 64) count ≡ chunk * 64 + rows_in chunk = omega arith in
        let split : count_below (min ((chunk + 1) * 64) count) above ≡ total + found =
          ap (λ (k : ℕ). count_below k above) next
          ∙ count_below-add (chunk * 64) (rows_in chunk) above
          ∙ ap₂ ◌+◌ (ap (λ (k : ℕ). count_below k above) (sym here) ∙ sym p) (sym q) in
        omega (arith, split, input.countable, count_below-le (min ((chunk + 1) * 64) count) above)

    pub legacy_loop-counts :
        (fuel chunk total : ℕ) (buffer : ColumnBuffer)
        → count ≤ (chunk + fuel) * 64
        → length buffer ≡ 64
        → total ≡ count_below (min (chunk * 64) count) above
        → (b : ColumnBuffer) × (legacy_loop pf fuel bytes row_stride count offset
              (some fn)
              chunk
              total
              buffer
            ≡ some (count_below count above, b))
          × (length b ≡ 64)
    unfolding legacy_loop
    legacy_loop-counts zero chunk total buffer f size p =
        let all : min (chunk * 64) count ≡ count = omega arith in
        let q = p ∙ ap (λ (k : ℕ). count_below k above) all in (buffer, rw q refl, size)
    legacy_loop-counts (suc fuel) chunk total buffer f size p =
        elim (Bool-cases (ltb (chunk * 64) count)) [
          | inl more ↦
              let h : chunk * 64 < count = ltb→lt (chunk * 64) count more in
              let (g, filled, is_filled) =
                gather_field-IsFilled bytes (chunk * 64 * row_stride) offset row_stride
                  (min 64 (count - chunk * 64)) buffer (λ r. v (chunk * 64 + r)) size
                  (chunk-Readable chunk h) in
              let found =
                chunk-count pf ok t fn ht e (rows_in chunk) (λ r. v (chunk * 64 + r)) g
                  (omega arith) (λ r q. input.small (chunk * 64 + r) (omega arith)) is_filled in
              let sliced : length (slice pf.hw g) ≡ 64 =
                length-slice ok.lanewise g (omega (arith, is_filled.size)) ∙ is_filled.size in
              rw (more, filled)
                (legacy_loop-counts fuel (chunk + 1) _ (slice pf.hw g) (omega arith) sliced
                  (total-step chunk total _ h p found))
          | inr done ↦
              let all : min (chunk * 64) count ≡ count = ground arith in
              let q = p ∙ ap (λ (k : ℕ). count_below k above) all in
              (buffer, rw (done, q) refl, size)
        ]
