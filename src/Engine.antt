-- ===== src/Engine.antt =====
-- src/api/engine.cpp and include/apex/engine.hpp: `ApexEngine`. The engine is a record that the
-- methods return anew. A pointer to a method's buffer is the buffer's contents. `none` is a fault:
-- a read outside the caller's data, or a call through a null kernel.
pub mod Chunks
pub mod Legacy
pub mod Single
pub mod Schemas
pub mod Expression
pub mod Parallel
pub mod Logic
use apex_engine.Common.{
  ℕ, zero, suc, ◌+◌, ◌-◌, ◌*◌, ◌/◌, ◌≤◌, ◌≡◌, min, Bool, true, false, List, [], ◌∷◌, Option, none,
  some, ltb, get_or, set, replicate, length, if◌then◌else◌, ◌>>=◌, Name, Map, find, assign, ◌↔◌,
}
use apex_engine.Word.{add64, two64}
use apex_engine.Word.Count.{popcount64}
use apex_engine.Slicer.{ColumnBuffer, Highway, word, slice}
use apex_engine.Arm64.{KernelFunc, ExprKernelFunc, JitRuntime}
use apex_engine.Jit.Comparison.{compile_comparison}
use apex_engine.Gather.{Bytes, gather_field}
use apex_engine.Registry.{FieldDescriptor, SchemaRegistry, get_field}
use apex_engine.Registry

-- include/apex/common.hpp
pub data ExecutionMode : Type 0 where
  bit_sliced scalar : ExecutionMode

pub record SchemaMetadata : Type 0 where
  pub row_stride : ℕ
  pub fields : List FieldDescriptor

pub record CompiledLogic : Type 0 where
  pub field : FieldDescriptor
  pub kernel : Option KernelFunc

pub record ExprCompiledLogic : Type 0 where
  pub kernel : Option ExprKernelFunc
  pub fields : List (Option FieldDescriptor)
  pub mode : ExecutionMode

-- The eight column buffers and the array of pointers to their planes.
pub record Buffers : Type 0 where
  pub field_buffers : List ColumnBuffer
  pub field_planes_array : List (Option ColumnBuffer)

pub record ApexEngine : Type 0 where
  pub registry : SchemaRegistry
  pub schema_metadata : Map SchemaMetadata
  pub compiled_logic : Map CompiledLogic
  pub expr_logic : Map ExprCompiledLogic
  pub buffers : Buffers

-- What the engine gets from outside: vector operations, the JIT runtime, where the first column
-- buffer lies, whether `posix_memalign` succeeds, and which entry `begin()` of a map is.
pub record Platform : Type 1 where
  pub hw : Highway
  pub runtime : JitRuntime
  pub buffer_address : ℕ
  pub scratch_available : Bool
  pub first_entry : (V : Type 0) → Map V → Option (Name × V)

-- The memory that a kernel reads, with a column buffer at an address.
abbrev pub buffer_memory : ℕ → ColumnBuffer → ℕ → ℕ
buffer_memory start b address = word b ((address - start) / 8)

unfoldable pub register_schema : Name → List FieldDescriptor → ℕ → ApexEngine → ApexEngine
register_schema schema fields total_row_stride e = record e {
  registry = Registry.register_schema schema fields e.registry;
  schema_metadata =
      assign schema (record { row_stride = total_row_stride; fields = fields }) e.schema_metadata;
}

-- A new engine. The buffers are not initialised.
abbrev pub new_engine : Buffers → ApexEngine
new_engine b = record {
  registry = record { schemas = [] };
  schema_metadata = [];
  compiled_logic = [];
  expr_logic = [];
  buffers = b;
}

-- The trips of a chunk loop, and the test behind the last.
abbrev pub chunk_fuel : ℕ → ℕ
chunk_fuel row_count = row_count / 64 + 1

module _ (pf : Platform) where
  pub set_logic : Name → Name → ℕ → ApexEngine → ApexEngine
  set_logic schema field threshold e = elim (get_field schema field e.registry) [
    | none ↦ e
    | some f ↦ record e {
      compiled_logic =
          assign schema (record { field = f; kernel = compile_comparison pf.runtime threshold })
            e.compiled_logic;
    }
  ]

  -- The chunk loop of the single-field path.
  unfoldable pub legacy_loop :
      (fuel : ℕ) (bytes : Bytes) (row_stride row_count offset : ℕ) (kernel : Option KernelFunc)
      → (chunk total : ℕ) → ColumnBuffer
      → Option (ℕ × ColumnBuffer)
  legacy_loop zero bytes row_stride row_count offset kernel chunk total buffer =
      some (total, buffer)
  legacy_loop (suc fuel) bytes row_stride row_count offset kernel chunk total buffer =
      let body : Option (ℕ × ColumnBuffer) = (do
        let rows_in_chunk = min 64 (row_count - chunk * 64)
        gathered ←
            gather_field bytes (chunk * 64 * row_stride) offset row_stride rows_in_chunk buffer
        let planes = slice pf.hw gathered
        fn ← kernel
        let chunk_mask = fn (buffer_memory pf.buffer_address planes) pf.buffer_address
        legacy_loop fuel bytes row_stride row_count offset kernel (chunk + 1)
            (add64 total (popcount64 chunk_mask)) planes) in
      if ltb (chunk * 64) row_count then body else some (total, buffer)

  -- One field of `process_chunk_expr`, into slot `i`.
  pub fill_slot :
      (bytes : Bytes) (base row_stride row_count : ℕ) (mode : ExecutionMode) (i : ℕ)
      → Option FieldDescriptor
      → Buffers
      → Option Buffers
  fill_slot bytes base row_stride row_count mode i none b =
      some (record b { field_planes_array = set b.field_planes_array i none })
  fill_slot bytes base row_stride row_count mode i (some f) b = do
    gathered ← gather_field bytes base f.offset row_stride row_count (get_or b.field_buffers i [])
    let filled : ColumnBuffer = elim mode [ bit_sliced ↦ slice pf.hw gathered | scalar ↦ gathered ]
    some (record {
      field_buffers = set b.field_buffers i filled;
      field_planes_array = set b.field_planes_array i (some filled);
    })

  -- `for (i = 0; i < fields.size() && i < 8; ++i)`, on the fields from `i` on.
  pub fill_slots :
      (bytes : Bytes) (base row_stride row_count : ℕ) (mode : ExecutionMode) (i : ℕ)
      → List (Option FieldDescriptor)
      → Buffers
      → Option Buffers
  fill_slots bytes base row_stride row_count mode i [] b = some b
  fill_slots bytes base row_stride row_count mode i (f ∷ fields) b =
      let rest : Option Buffers = (do
        b' ← fill_slot bytes base row_stride row_count mode i f b
        fill_slots bytes base row_stride row_count mode (i + 1) fields b') in
      if ltb i 8 then rest else some b

  -- `process_chunk_expr`: the mask, the scratchpad and the buffers behind it.
  pub process_chunk_expr :
      (bytes : Bytes) (base row_stride row_count : ℕ)
      → ExprCompiledLogic
      → List ℕ
      → Buffers
      → Option (ℕ × List ℕ × Buffers)
  process_chunk_expr bytes base row_stride row_count logic scratchpad b = do
    let cleared = record b { field_planes_array = replicate 8 none }
    filled ← fill_slots bytes base row_stride row_count logic.mode 0 logic.fields cleared
    elim logic.kernel [
      | none ↦ some (0, scratchpad, filled)
      | some fn ↦ do
        (mask, scratchpad') ← fn filled.field_planes_array scratchpad
        some (mask, scratchpad', filled)
    ]

  -- The chunk loop of the expression path, which clears the scratchpad for each chunk.
  pub expr_loop :
      (fuel : ℕ) (bytes : Bytes) (row_stride row_count : ℕ) (logic : ExprCompiledLogic)
      → (chunk total : ℕ) → Buffers
      → Option (ℕ × Buffers)
  expr_loop zero bytes row_stride row_count logic chunk total b = some (total, b)
  expr_loop (suc fuel) bytes row_stride row_count logic chunk total b =
      let body : Option (ℕ × Buffers) = (do
        let rows_in_chunk = min 64 (row_count - chunk * 64)
        (chunk_mask, scratchpad, b') ←
            process_chunk_expr bytes (chunk * 64 * row_stride) row_stride rows_in_chunk logic
              (replicate 512 0) b
        expr_loop fuel bytes row_stride row_count logic (chunk + 1)
            (add64 total (popcount64 chunk_mask)) b') in
      if ltb (chunk * 64) row_count then body else some (total, b)

  -- `execute` where `expr_logic_` has a first entry.
  pub execute_expr : Bytes → ℕ → Name → ExprCompiledLogic → ApexEngine → Option (ℕ × ApexEngine)
  execute_expr bytes row_count schema logic e = elim (find schema e.schema_metadata) [
    | none ↦ some (0, e)
    | some meta ↦
        if pf.scratch_available
        then (do
          (total, b) ←
              expr_loop (chunk_fuel row_count) bytes meta.row_stride row_count logic 0 0 e.buffers
          some (total, record e { buffers = b }))
        else some (0, e)
  ]

  -- The fallback of `execute`, where `compiled_logic_` has a first entry.
  pub execute_legacy : Bytes → ℕ → Name → CompiledLogic → ApexEngine → Option (ℕ × ApexEngine)
  execute_legacy bytes row_count schema logic e = elim (find schema e.schema_metadata) [
    | none ↦ some (0, e)
    | some meta ↦ do
      (total, b0) ←
          legacy_loop (chunk_fuel row_count) bytes meta.row_stride row_count logic.field.offset
            logic.kernel 0 0 (get_or e.buffers.field_buffers 0 [])
      some (
        total,
        record e {
          buffers = record (e.buffers) { field_buffers = set e.buffers.field_buffers 0 b0 };
        },
      )
  ]

  -- `execute(data_ptr, row_count)`
  pub execute : Bytes → ℕ → ApexEngine → Option (ℕ × ApexEngine)
  execute bytes row_count e = elim (pf.first_entry ExprCompiledLogic e.expr_logic) [
    | some (schema, logic) ↦ execute_expr bytes row_count schema logic e
    | none ↦ elim (pf.first_entry CompiledLogic e.compiled_logic) [
      | some (schema, logic) ↦ execute_legacy bytes row_count schema logic e
      | none ↦ some (0, e)
    ]
  ]
