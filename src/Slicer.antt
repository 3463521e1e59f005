-- ===== src/Slicer.antt =====
-- src/compute/bit_slicer.cpp and include/apex/compute/{column_buffer,bit_slicer}.hpp: the 64x64
-- bit-matrix transpose. A `ColumnBuffer` is the list of its 64 words. The vector operations are
-- Google Highway's, a parameter: `Highway` has one field for each call that the code makes. A loop
-- takes fuel; the number given is the trip count at one lane, the most that any target needs.
pub mod Vectors
pub mod Rows
pub mod Blocks
pub mod Stages
pub mod Masks
pub mod Cross
pub mod Transpose
use Prim.Native.Nat.{bit_and, bit_xor}
use apex_engine.Common.{ℕ, zero, suc, ◌+◌, ◌*◌, ◌<◌, List, get_or, set, length, ltb, if◌then◌else◌}
use apex_engine.Word.{shr, shl64}

-- `data[kSize]`
abbrev pub ColumnBuffer : Type 0
ColumnBuffer = List ℕ

abbrev pub k_size : ℕ
k_size = 64

abbrev pub word : ColumnBuffer → ℕ → ℕ
word a i = get_or a i 0

-- The calls of `hn::`, at the tag `CappedTag<uint64_t, cap>`; an array and an index stand for the
-- pointer `A + k`. `lane` is `ExtractLane`, which only the laws use.
pub record Highway : Type 1 where
  pub Vector : ℕ → Type 0
  pub lanes : ℕ → ℕ
  pub load : (cap : ℕ) → ColumnBuffer → ℕ → Vector cap
  pub store : (cap : ℕ) → Vector cap → ColumnBuffer → ℕ → ColumnBuffer
  pub broadcast : (cap : ℕ) → ℕ → Vector cap
  pub v_and : (cap : ℕ) → Vector cap → Vector cap → Vector cap
  pub v_xor : (cap : ℕ) → Vector cap → Vector cap → Vector cap
  pub shift_right : (cap : ℕ) → ℕ → Vector cap → Vector cap
  pub shift_left : (cap : ℕ) → ℕ → Vector cap → Vector cap
  pub lane : (cap : ℕ) → Vector cap → ℕ → ℕ

module _ (hw : Highway) where
  open hw use {lanes, load, store, broadcast, v_and, v_xor, shift_right, shift_left}

  -- The body of the inner loops: rows `k ..` and `k + stride ..`, one vector of each.
  pub swap_rows : ℕ → ℕ → ℕ → ColumnBuffer → ColumnBuffer
  swap_rows stride mask k a =
      let va = load stride a k in
      let vb = load stride a (k + stride) in
      let vt =
        v_and stride (v_xor stride (shift_right stride stride va) vb) (broadcast stride mask) in
      let a' = store stride (v_xor stride vb vt) a (k + stride) in
      store stride (v_xor stride va (shift_left stride stride vt)) a' k

  -- `for (k = …; k < end; k += N)`
  pub row_loop : ℕ → ℕ → ℕ → ℕ → ℕ → ColumnBuffer → ColumnBuffer
  row_loop zero stride mask k end a = a
  row_loop (suc fuel) stride mask k end a =
      let rest = row_loop fuel stride mask (k + lanes stride) end (swap_rows stride mask k a) in
      if ltb k end then rest else a

  -- `for (block = 0; block < 64; block += 2 * stride)`
  pub block_loop : ℕ → ℕ → ℕ → ℕ → ColumnBuffer → ColumnBuffer
  block_loop zero stride mask block a = a
  block_loop (suc fuel) stride mask block a =
      let rest =
        block_loop fuel stride mask (block + 2 * stride)
          (row_loop stride stride mask block (block + stride) a) in
      if ltb block k_size then rest else a

  -- `Stage5`, which has the one block, to `Stage1`.
  pub stage5 : ColumnBuffer → ColumnBuffer
  stage5 a = row_loop 32 32 0x0000_0000_ffff_ffff 0 32 a

  pub stage4 : ColumnBuffer → ColumnBuffer
  stage4 a = block_loop 64 16 0x0000_ffff_0000_ffff 0 a

  pub stage3 : ColumnBuffer → ColumnBuffer
  stage3 a = block_loop 64 8 0x00ff_00ff_00ff_00ff 0 a

  pub stage2 : ColumnBuffer → ColumnBuffer
  stage2 a = block_loop 64 4 0x0f0f_0f0f_0f0f_0f0f 0 a

  pub stage1 : ColumnBuffer → ColumnBuffer
  stage1 a = block_loop 64 2 0x3333_3333_3333_3333 0 a

-- The body of `Stage0`, and its loop `for (i = 0; i < 64; i += 2)`.
pub swap_pair : ℕ → ColumnBuffer → ColumnBuffer
swap_pair i a =
    let t = bit_and (bit_xor (shr (word a i) 1) (word a (i + 1))) 0x5555_5555_5555_5555 in
    let a' = set a (i + 1) (bit_xor (word a (i + 1)) t) in
    set a' i (bit_xor (word a' i) (shl64 t 1))

pub pair_loop : ℕ → ℕ → ColumnBuffer → ColumnBuffer
pair_loop zero i a = a
pair_loop (suc fuel) i a =
    let rest = pair_loop fuel (i + 2) (swap_pair i a) in if ltb i 64 then rest else a

pub stage0 : ColumnBuffer → ColumnBuffer
stage0 a = pair_loop 64 0 a

module _ (hw : Highway) where
  -- `Transpose64x64`
  pub transpose : ColumnBuffer → ColumnBuffer
  transpose a = stage0 (stage1 hw (stage2 hw (stage3 hw (stage4 hw (stage5 hw a)))))

  -- `Slice_impl` and `BitSlicer::slice`: the copy, then the transpose of the copy, in `out`.
  pub slice : ColumnBuffer → ColumnBuffer
  slice input = transpose input
