-- ===== src/Lib.antt =====
-- Project Apex: an engine that counts the records of a table that satisfy a predicate, 64 records
-- at a time. A client registers a schema (src/core/registry.cpp), sets a threshold on a field, for
-- which the compiler makes machine code (src/jit/compiler.cpp), and calls `execute`
-- (src/api/engine.cpp). That gathers the field of 64 records into a column buffer, transposes the
-- buffer into bit planes (src/compute/bit_slicer.cpp), runs the code on the planes, and adds the
-- population count of the mask that the code returns. With an expression for the threshold, the
-- kernel is a function of up to eight fields, and src/compute/parallel_runner.cpp splits the rows
-- over threads.
--
-- Which file models what:
--   Common     conditionals, lists and maps on the native natural numbers, signed numbers
--   Word       64-bit words: bits, shifts, comparison from the top bit down, population count
--   Slicer     src/compute/bit_slicer.cpp: Stage5 to Stage0, Transpose64x64, BitSlicer::slice
--   Arm64      the A64 instructions that the compiler emits, and what they do
--   Circuit    src/jit/circuit_library.cpp: CircuitLibrary::emit_gt_64 and emit_mux
--   Jit        src/jit/compiler.cpp: JitCompiler::compile_comparison, ExpressionAnalyzer, ConstPool,
--              ScratchpadManager, compile_scalar_expression (Scalar) and compile_expression
--              (Expression)
--   Gather     src/api/engine.cpp: ApexEngine::gather_field
--   Registry   src/core/registry.cpp: SchemaRegistry
--   Engine     src/api/engine.cpp: register_schema, set_logic, set_expression, process_chunk_expr,
--              execute and execute_parallel
--   Runner     src/compute/parallel_runner.cpp: worker_thread and ParallelRunner::run
--   Ir         include/apex/jit/ir.hpp, src/jit/jit.cpp: Node, NodePool and the builders
--   Viewer     include/apex/memory/data_viewer.hpp: DataViewer::get_value
--   Api        src/api/apex_c_api.cpp, the C interface, and include/apex/Apex.hpp
--   Tests      the theorems at concrete inputs
--
-- Conventions. A `uint64_t` is a natural number, with its wrap-around written out. A fault of the
-- C++ code, a read outside the caller's data or a call through a null kernel, is `none`. An
-- operation of a class takes the object's state and returns it anew; a pointer that is only read
-- is what it points to. A hash map is an association list.
--
-- Outside the repository, and so parameters: Google Highway's vector operations (`Highway`, with
-- `IsLanewise` for their documented behaviour), AsmJit's runtime (`JitRuntime`, with `RunsCode`),
-- the order of an `unordered_map` and the address of the first buffer (`Platform`, with
-- `IsPlatform`).
--
-- Fuel. The loops of the slicer and of the gather take 64, since each trip moves on by one row at
-- least; a chunk loop takes `row_count / 64 + 1`, and the recursions on an expression 128, the size
-- of the pool. That this is enough is part of the theorems about them.
--
-- Not modelled: the shared-memory fabric, the bindings, the examples and the benchmarks, which are
-- calls of other libraries or of the engine; the debug prints, the prefetches and the thread
-- priorities, which have no effect on a result; allocations that fail within a call of the C
-- interface. `compile_expression` emits nothing, or the wrong thing, for `EQ`, `OR`, `NOT`, `SELECT`
-- and shifts, and `compile_scalar_expression` emits nothing for `NOT`, `SELECT`, `LSL` and `LSR`. Their
-- code is modelled for these as it is; what is stated of the masks of either is about expressions
-- without the kinds that it does not handle.
pub mod Common
pub mod Word
pub mod Slicer
pub mod Arm64
pub mod Circuit
pub mod Jit
pub mod Gather
pub mod Registry
pub mod Engine
pub mod Runner
pub mod Ir
pub mod Tests
pub mod Api
pub mod Viewer
