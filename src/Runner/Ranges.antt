-- ===== src/Runner/Ranges.antt =====
-- How the runner splits the rows.
use native.Mathlib.Nat.{div-le_self, mul-le-mul_left, mul-div-le, le_trans}
use apex_engine.Common.{
  ℕ, zero, suc, ◌+◌, ◌*◌, ◌/◌, ◌≤◌, ◌<◌, ◌≡◌, refl, ap, arith, List, [], ◌∷◌, if◌then◌else◌, ◌==◌,
}
use apex_engine.Runner.{spawn, ranges, rows_per_thread}

-- Ranges that follow one another without gap or overlap from `lo` to `hi`, none of them empty.
abbrev pub IsPartition : ℕ → ℕ → List (ℕ × ℕ) → Type 0
IsPartition lo hi [] = lo ≡ hi
IsPartition lo hi ((a, b) ∷ rs) = (a ≡ lo) × (a < b) × IsPartition b hi rs

module _ (total n rows : ℕ) where
  spawn_last :
      (t : ℕ) → t + 1 ≡ n → t * rows < total → spawn 1 t total n rows ≡ (t * rows, total) ∷ []
  unfolding spawn
  spawn_last t e h = ground arith

  spawn_next :
      (left t : ℕ)
      → t + 1 < n
      → t * rows < total
      → spawn (suc left) t total n rows
        ≡ (t * rows, t * rows + rows) ∷ spawn left (t + 1) total n rows
  unfolding spawn
  spawn_next left t e h = ground arith

  spawn_stop : (left t : ℕ) → total ≤ t * rows → spawn left t total n rows ≡ []
  unfolding spawn
  spawn_stop zero t h = refl
  spawn_stop (suc left) t h = ground arith

  spawn-IsPartition :
      (left t : ℕ)
      → 0 < rows
      → n * rows ≤ total
      → t + suc left ≡ n
      → IsPartition (t * rows) total (spawn (suc left) t total n rows)
  spawn-IsPartition zero t pos fits e =
      let h : t * rows < total = omega (arith, ap (λ (k : ℕ). k * rows) e) in
      rw (spawn_last t e h) (refl, h, refl)
  spawn-IsPartition (suc left) t pos fits e =
      let h : t * rows < total = omega (arith, ap (λ (k : ℕ). k * rows) e) in
      let next : (t + 1) * rows ≡ t * rows + rows = omega arith in
      rw (spawn_next (suc left) t (omega arith) h)
        (refl, omega arith, rw next at (spawn-IsPartition left (t + 1) pos fits (omega arith)))

rows_per_thread-fits :
    (total n : ℕ)
    → 64 ≤ total / n
    → (0 < rows_per_thread total n) × (n * rows_per_thread total n ≤ total)
unfolding rows_per_thread
rows_per_thread-fits total n h =
    let q = total / n in
    let block : q / 64 * 64 ≤ q = omega arith in
    let same : (if q / 64 * 64 == 0 then 64 else q / 64 * 64) ≡ q / 64 * 64 = ground arith in
    rw same (omega arith, le_trans (mul-le-mul_left n block) (mul-div-le total n))

-- With at least 64 rows for each thread, the threads' ranges partition the rows: each row is
-- processed by exactly one thread, and none outside the data.
pub ranges-IsPartition :
    (total n : ℕ) → 0 < n → 64 ≤ total / n → IsPartition 0 total (ranges total n)
unfolding ranges
ranges-IsPartition total zero pos h = absurd (omega arith)
ranges-IsPartition total (suc n) pos h =
    let rows = rows_per_thread total (suc n) in
    let (some_rows, fits) = rows_per_thread-fits total (suc n) h in
    let start : 0 * rows ≡ 0 = omega arith in
    rw start at (spawn-IsPartition total (suc n) rows n 0 some_rows fits (omega arith))

rows_per_thread_few : (total n : ℕ) → total < 64 → 0 < n → rows_per_thread total n ≡ 64
unfolding rows_per_thread
rows_per_thread_few total n h p =
    let q = total / n in let small : q < 64 = omega (arith, div-le_self total n) in ground arith

-- With fewer than 64 rows and at least two threads, the one range that is started ends at row 64,
-- behind the last row of the data.
pub ranges_overrun : (total n : ℕ) → 0 < total → total < 64 → 2 ≤ n → ranges total n ≡ (0, 64) ∷ []
unfolding ranges
ranges_overrun total zero h k p = absurd (omega arith)
ranges_overrun total (suc n) h k p = rw (rows_per_thread_few total (suc n) k (omega arith)) (
    rw (spawn_next total (suc n) 64 n 0 (omega arith) (omega arith))
      (rw (spawn_stop total (suc n) 64 n (0 + 1) (omega arith)) refl))
