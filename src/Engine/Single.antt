-- ===== src/Engine/Single.antt =====
-- The single-field path from the first call to the last.
use apex_engine.Common.{
  ℕ, ◌*◌, ◌≡◌, min, refl, ◌∙◌, ap, arith, List, [], ◌∷◌, none, some, length, get_or, set, ltb, Name,
  find, name_eq_refl, assign,
}
use apex_engine.Word.{IsU64}
use apex_engine.Word.Count.{count_below}
use apex_engine.Arm64.{KernelFunc}
use apex_engine.Jit.Comparison.{compile_comparison}
use apex_engine.Gather.{Bytes}
use apex_engine.Slicer.{ColumnBuffer}
use apex_engine.Registry.{FieldDescriptor, get_field}
use apex_engine.Registry
use apex_engine.Registry.Laws.{first_named, register_schema-get_field}
use apex_engine.Engine.{
  Platform, ApexEngine, Buffers, CompiledLogic, SchemaMetadata, ExprCompiledLogic, new_engine,
  register_schema, set_logic, execute, execute_legacy, legacy_loop, chunk_fuel,
}
use apex_engine.Engine.Chunks.{IsPlatform}
use apex_engine.Engine.Legacy.{HasRows, legacy_loop-counts}

set_logic-found :
    (pf : Platform) (schema field : Name) (t : ℕ) (e : ApexEngine) (f : FieldDescriptor)
    → get_field schema field e.registry ≡ some f
    → set_logic pf schema field t e ≡ record e {
      compiled_logic =
          assign schema
            (record { field = f; kernel = compile_comparison pf.runtime t })
            e.compiled_logic;
    }
unfolding set_logic
set_logic-found pf schema field t e f h =
    ap {B = ApexEngine}
      (λ found. elim found [
        | none ↦ e
        | some g ↦ record e {
          compiled_logic =
              assign schema (record { field = g; kernel = compile_comparison pf.runtime t })
                e.compiled_logic;
        }
      ])
      h

module _ (pf : Platform) (schema field : Name) (fields : List FieldDescriptor) (stride t : ℕ)
    (b : Buffers) where
  abbrev configured : ApexEngine
  configured = set_logic pf schema field t (register_schema schema fields stride (new_engine b))

  field_found :
      (f : FieldDescriptor)
      → first_named field fields ≡ some f
      → get_field schema field (Registry.register_schema schema fields (record { schemas = [] }))
        ≡ some f
  unfolding Registry.has_schema find
  field_found f h =
      register_schema-get_field schema field schema fields (record { schemas = [] })
      ∙ rw (name_eq_refl schema) h

  -- What `set_logic` leaves, when the schema has the field.
  configured_lem :
      (f : FieldDescriptor)
      → first_named field fields ≡ some f
      → configured ≡ record (register_schema schema fields stride (new_engine b)) {
        compiled_logic =
            (schema, record { field = f; kernel = compile_comparison pf.runtime t }) ∷ [];
      }
  unfolding register_schema assign
  configured_lem f h =
      set_logic-found pf schema field t (register_schema schema fields stride (new_engine b)) f
        (field_found f h)

-- `execute` with a single-field logic alone runs the chunk loop on the schema's stride.
pub execute-runs_legacy :
    (pf : Platform) (bytes : Bytes) (count : ℕ) (e : ApexEngine) (schema : Name)
    (logic : CompiledLogic) (meta : SchemaMetadata) (n : ℕ) (b0 : ColumnBuffer)
    → pf.first_entry ExprCompiledLogic e.expr_logic ≡ none
    → pf.first_entry CompiledLogic e.compiled_logic ≡ some (schema, logic)
    → find schema e.schema_metadata ≡ some meta
    → legacy_loop pf
        (chunk_fuel count)
        bytes
        meta.row_stride
        count
        logic.field.offset
        logic.kernel
        0
        0
        (get_or e.buffers.field_buffers 0 [])
      ≡ some (n, b0)
    → execute pf bytes count e
      ≡ some (
        n,
        record e {
          buffers = record (e.buffers) { field_buffers = set e.buffers.field_buffers 0 b0 };
        },
      )
unfolding execute execute_legacy
execute-runs_legacy pf bytes count e schema logic meta n b0 h1 h2 h3 h4 =
    rw (h1, execute) (rw h2 (rw (h3, execute_legacy) (rw h4 refl)))

-- A new engine is given a schema and a threshold on one of its fields; `execute` then returns
-- exactly how many of the rows have a value of that field greater than the threshold, as unsigned
-- 64-bit numbers, whatever their number: rows that pad the last chunk are not counted. Assumed are
-- a kernel that compiled, buffers of 64 words, the platform's documented behaviour, fewer than
-- 2 ^ 64 rows, and that the field of each row lies in the data.
pub execute-single_field :
    (pf : Platform)
    → IsPlatform pf
    → (schema field : Name) (fields : List FieldDescriptor) (stride t : ℕ) (b : Buffers)
    → length (get_or b.field_buffers 0 []) ≡ 64
    → IsU64 t
    → (f : FieldDescriptor) → first_named field fields ≡ some f
    → (fn : KernelFunc) → compile_comparison pf.runtime t ≡ some fn
    → (bytes : Bytes) (count : ℕ) (v : ℕ → ℕ) → HasRows bytes stride f.offset count v
    → (e : ApexEngine) × (execute pf bytes count
          (set_logic pf schema field t (register_schema schema fields stride (new_engine b)))
        ≡ some (count_below count (λ r. ltb t (v r)), e))
unfolding register_schema assign find count_below
execute-single_field pf ok schema field fields stride t b size ht f found fn compiled bytes count v
      input =
    let (b0, runs, _) =
      legacy_loop-counts input pf ok t fn ht compiled (chunk_fuel count) 0 0
        (get_or b.field_buffers 0 []) (omega arith) size
        (ap (λ (k : ℕ). count_below k (λ r. ltb t (v r))) {x = 0} {y = min (0 * 64) count}
          (omega arith)) in
    let logic : CompiledLogic = record { field = f; kernel = compile_comparison pf.runtime t } in
    let e : ApexEngine = record (register_schema schema fields stride (new_engine b)) {
      compiled_logic = (schema, logic) ∷ [];
    } in
    let meta : SchemaMetadata = record { row_stride = stride; fields = fields } in
    (
      record e { buffers = record b { field_buffers = set b.field_buffers 0 b0 } },
      ap (execute pf bytes count) (configured_lem pf schema field fields stride t b f found)
          ∙ execute-runs_legacy pf bytes count e schema logic meta
              (count_below count (λ r. ltb t (v r))) b0 (ok.empty_map ExprCompiledLogic)
              (ok.one_entry CompiledLogic schema logic) (rw (name_eq_refl schema) refl)
              (rw compiled runs),
    )
