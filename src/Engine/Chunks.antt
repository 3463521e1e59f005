-- ===== src/Engine/Chunks.antt =====
-- One chunk of the single-field path: gather, slice, compare, count.
use apex_engine.Common.{
  ℕ, zero, suc, ◌+◌, ◌-◌, ◌*◌, ◌/◌, ◌≤◌, ◌<◌, ◌≡◌, refl, ◌∙◌, ap, arith, [], ◌∷◌, none, some, Name,
  length, ltb, dec_lt,
}
use apex_engine.Word.{IsU64, two64}
use apex_engine.Word.Count.{
  count_below, popcount64, popcount64-congr, count_below-congr, count_below-pad,
}
use apex_engine.Slicer.{ColumnBuffer, word, slice}
use apex_engine.Slicer.Vectors.{IsLanewise}
use apex_engine.Arm64.{KernelFunc, RunsCode}
use apex_engine.Jit.Comparison.{compile_comparison}
use apex_engine.Jit.Comparison.Correct.{HoldsBuffer, IsColumn, slice-compare-marks}
use apex_engine.Gather.Loops.{IsFilled}
use apex_engine.Gather.Correct.{padded}
use apex_engine.Engine.{Platform, buffer_memory}

-- Documented behaviour of what the engine gets from outside, and room for the column buffer.
pub record IsPlatform (pf : Platform) : Type 1 where
  pub lanewise : IsLanewise pf.hw
  pub runs_code : RunsCode pf.runtime
  pub room : pf.buffer_address + 512 ≤ two64
  pub empty_map : (V : Type 0) → pf.first_entry V [] ≡ none
  pub one_entry : (V : Type 0) (k : Name) (x : V) → pf.first_entry V ((k, x) ∷ []) ≡ some (k, x)

word_beyond : (b : ColumnBuffer) (r : ℕ) → length b ≤ r → word b r ≡ 0
word_beyond [] r h = refl
word_beyond (x ∷ b) zero h = absurd (omega arith)
word_beyond (x ∷ b) (suc r) h = word_beyond b r (omega arith)

pub buffer_memory-holds :
    (start : ℕ) (b : ColumnBuffer)
    → start + 512 ≤ two64
    → HoldsBuffer (buffer_memory start b) start b
buffer_memory-holds start b h = record {
  words = λ k p. ap (word b) {x = (start + 8 * k - start) / 8} {y = k} (omega arith);
  fits = h;
}

module _ {n : ℕ} {v : ℕ → ℕ} (small : n ≤ 64) (words : (r : ℕ) → r < n → IsU64 (v r)) where
  padded-IsU64 : (r : ℕ) → IsU64 (padded n v r)
  padded-IsU64 r = ground (arith, words r)

  filled-IsColumn : {b : ColumnBuffer} → IsFilled (padded n v) 64 b → IsColumn b
  filled-IsColumn {b} f = record {
    size = f.size;
    small = λ r. elim (dec_lt r 64) [
      | yes p ↦ rw (f.rows r p) (padded-IsU64 r)
      | no p ↦ rw (word_beyond b r (omega (arith, f.size))) (omega arith)
    ];
  }

-- The count of one chunk is the number of its rows above the threshold: padding never counts.
pub chunk-count :
    (pf : Platform)
    → IsPlatform pf
    → (t : ℕ) (fn : KernelFunc) → IsU64 t
    → compile_comparison pf.runtime t ≡ some fn
    → (n : ℕ) (v : ℕ → ℕ) (b : ColumnBuffer) → n ≤ 64
    → ((r : ℕ) → r < n → IsU64 (v r))
    → IsFilled (padded n v) 64 b
    → popcount64 (fn (buffer_memory pf.buffer_address (slice pf.hw b)) pf.buffer_address)
      ≡ count_below n (λ r. ltb t (v r))
chunk-count pf ok t fn ht e n v b small words f =
    let start = pf.buffer_address in
    let planes = slice pf.hw b in
    let marks =
      slice-compare-marks ok.lanewise pf.runtime ok.runs_code t fn ht e b
        (filled-IsColumn small words f) (buffer_memory start planes) start
        (buffer_memory-holds start planes ok.room) in
    popcount64-congr (fn (buffer_memory start planes) start) (λ r. ltb t (padded n v r))
      (λ r h. marks r h ∙ ap (ltb t) (f.rows r h))
    ∙ ap (λ (k : ℕ). count_below k (λ r. ltb t (padded n v r))) {x = 64} {y = n + (64 - n)}
        (omega arith)
    ∙ count_below-pad n (64 - n) (λ r. ltb t (padded n v r)) (λ r p q. ground arith)
    ∙ count_below-congr n (λ r. ltb t (padded n v r)) (λ r. ltb t (v r)) (λ r p. ground arith)
