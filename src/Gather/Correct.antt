-- ===== src/Gather/Correct.antt =====
-- What `gather_field` leaves in the buffer.
use apex_engine.Common.{ℕ, ◌≤◌, ◌≡◌, refl, ◌∙◌, arith, min, some, length, ltb, if◌then◌else◌}
use apex_engine.Slicer.{ColumnBuffer}
use apex_engine.Gather.{Bytes, pad_zero, gather_field}
use apex_engine.Gather.Loops.{
  IsFilled, Readable, gather_four-IsFilled, gather_rest-IsFilled, pad_zero-IsFilled,
}

-- The values of the rows present, and zero behind them.
abbrev pub padded : ℕ → (ℕ → ℕ) → ℕ → ℕ
padded n v r = if ltb r n then v r else 0

-- If the field of each row asked for can be read, `gather_field` does not fault: whatever the
-- buffer held, it comes to hold the values of the first 64 rows at most, and zeros behind them.
pub gather_field-IsFilled :
    (bytes : Bytes) (base offset row_stride row_count : ℕ) (out : ColumnBuffer) (v : ℕ → ℕ)
    → length out ≡ 64
    → Readable bytes base row_stride offset (min row_count 64) v
    → (b : ColumnBuffer) × (gather_field bytes base offset row_stride row_count out ≡ some b)
      × IsFilled (padded (min row_count 64) v) 64 b
unfolding gather_field
gather_field-IsFilled bytes base offset row_stride row_count out v size readable =
    let n = min row_count 64 in
    let small : n ≤ 64 = omega arith in
    let readable' : Readable bytes base row_stride offset n (padded n v) = record {
      row = λ r p. readable.row r p ∙ ground arith;
    } in
    let start : IsFilled (padded n v) 0 out = record {
      size = size;
      rows = λ r p. absurd (omega arith);
    } in
    let (i, b1, e1, h1, f1) = gather_four-IsFilled readable' small 64 0 out (omega arith) start in
    let (b2, e2, f2) = gather_rest-IsFilled readable' small 64 i b1 h1 (omega arith) f1 in
    (
      pad_zero 64 n b2,
      rw (e1, e2) refl,
      pad_zero-IsFilled 64 n b2 small (omega arith) (λ r p. ground arith) f2,
    )
