-- ===== src/Engine/Parallel.antt =====
-- src/api/engine.cpp: `ApexEngine::execute_parallel`. `buffers` are a thread's buffers, which are not
-- initialised.
use apex_engine.Common.{ℕ, ℤ, List, Option, none, some, find, ◌==◌, if◌then◌else◌, ◌>>=◌}
use apex_engine.Slicer.{ColumnBuffer}
use apex_engine.Gather.{Bytes}
use apex_engine.Engine.{Platform, ApexEngine, ExprCompiledLogic, execute}
use apex_engine.Runner.{TaskConfig, run}

-- A null kernel is not called where there are no rows.
pub execute_parallel :
    Platform
    → (buffers : List ColumnBuffer) → Bytes
    → (row_count : ℕ) → ℤ
    → ApexEngine
    → Option (ℕ × ApexEngine)
execute_parallel pf buffers bytes row_count num_threads e =
    elim (pf.first_entry ExprCompiledLogic e.expr_logic) [
      | none ↦ execute pf bytes row_count e
      | some (schema, logic) ↦ elim (find schema e.schema_metadata) [
        | none ↦ some (0, e)
        | some meta ↦ elim (logic.kernel) [
          | none ↦ if row_count == 0 then some (0, e) else none
          | some fn ↦ do
            let config : TaskConfig = record {
              kernel = fn;
              fields = logic.fields;
              row_stride = meta.row_stride;
              mode = logic.mode;
            }
            total ← run pf.hw bytes config pf.scratch_available buffers row_count num_threads
            some (total, e)
        ]
      ]
    ]
