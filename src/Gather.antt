-- ===== src/Gather.antt =====
-- src/api/engine.cpp, `ApexEngine::gather_field`: one field of up to 64 rows, read from raw bytes
-- into a column buffer. `memcpy` of 8 bytes is a little-endian load; `none` is a read outside the
-- caller's data, which C++ leaves undefined. Each loop takes fuel, 64, which is more than its trips.
pub mod Loops
pub mod Correct
use apex_engine.Common.{
  ℕ, zero, suc, ◌+◌, ◌*◌, ◌≡◌, min, List, Option, none, some, get_elem?, set, ltb, leb,
  if◌then◌else◌, ◌>>=◌,
}
use apex_engine.Slicer.{ColumnBuffer}

-- The caller's rows, as bytes.
abbrev pub Bytes : Type 0
Bytes = List ℕ

-- `width` bytes from `address` on, the low byte first.
unfoldable pub load_le : (width : ℕ) → Bytes → ℕ → Option ℕ
load_le zero bytes address = some 0
load_le (suc width) bytes address = do
  b ← get_elem? bytes address
  rest ← load_le width bytes (address + 1)
  some (b + 256 * rest)

unfoldable pub load64 : Bytes → ℕ → Option ℕ
load64 bytes address = load_le 8 bytes address

-- The load of the field in row `i`.
abbrev pub load_row : (bytes : Bytes) (base row_stride offset i : ℕ) → Option ℕ
load_row bytes base row_stride offset i = load64 bytes (base + i * row_stride + offset)

module _ (bytes : Bytes) (base row_stride offset rows : ℕ) where
  -- The loop that is unrolled four times.
  pub gather_four : (fuel i : ℕ) → ColumnBuffer → Option (ℕ × ColumnBuffer)
  gather_four zero i out = some (i, out)
  gather_four (suc fuel) i out =
      let body : Option (ℕ × ColumnBuffer) = (do
        v0 ← load_row bytes base row_stride offset (i + 0)
        v1 ← load_row bytes base row_stride offset (i + 1)
        v2 ← load_row bytes base row_stride offset (i + 2)
        v3 ← load_row bytes base row_stride offset (i + 3)
        gather_four fuel (i + 4)
            (set (set (set (set out (i + 0) v0) (i + 1) v1) (i + 2) v2) (i + 3) v3)) in
      if leb (i + 4) rows then body else some (i, out)

  -- The rows left over.
  pub gather_rest : (fuel i : ℕ) → ColumnBuffer → Option (ℕ × ColumnBuffer)
  gather_rest zero i out = some (i, out)
  gather_rest (suc fuel) i out =
      let body : Option (ℕ × ColumnBuffer) = (do
        v0 ← load_row bytes base row_stride offset i
        gather_rest fuel (i + 1) (set out i v0)) in
      if ltb i rows then body else some (i, out)

-- Zero padding.
pub pad_zero : (fuel i : ℕ) → ColumnBuffer → ColumnBuffer
pad_zero zero i out = out
pad_zero (suc fuel) i out =
    let rest = pad_zero fuel (i + 1) (set out i 0) in if ltb i 64 then rest else out

-- `gather_field(data_ptr, field, row_stride, row_count, out)`
unfoldable pub gather_field :
    (bytes : Bytes) (base offset row_stride row_count : ℕ) → ColumnBuffer → Option ColumnBuffer
gather_field bytes base offset row_stride row_count out = do
  let rows = min row_count 64
  (i, out1) ← gather_four bytes base row_stride offset rows 64 0 out
  (j, out2) ← gather_rest bytes base row_stride offset rows 64 i out1
  some (pad_zero 64 j out2)
