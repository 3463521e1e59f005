-- ===== src/Tests/Engine.antt =====
-- The registry and the engine at concrete inputs.
use apex_engine.Common.{
  ℕ, zero, suc, ◌<◌, ◌≡◌, refl, arith, List, [], ◌∷◌, ◌++◌, none, some, get_or, replicate, Name,
  find, name_eq,
}
use apex_engine.Word.{IsU64}
use apex_engine.Word.Count.{count_below}
use apex_engine.Arm64.{KernelFunc, run, enter}
use apex_engine.Jit.Comparison.{compile_comparison, comparison_code}
use apex_engine.Gather.{Bytes, load64, load_le, load_row}
use apex_engine.Registry.{FieldDescriptor, SchemaRegistry, uint64, get_field, has_schema}
use apex_engine.Registry
use apex_engine.Registry.Laws.{first_named, register_schema-get_field}
use apex_engine.Engine.{ApexEngine, Buffers, new_engine, register_schema, set_logic, execute}
use apex_engine.Engine.Legacy.{HasRows}
use apex_engine.Engine.Single.{execute-single_field}
use apex_engine.Engine.Schemas.{Registration, register_all, register_schema_again}
use apex_engine.Tests.Machine.{idle, device, device-IsPlatform}

-- "trade", "price" and "size"
abbrev pub trade : Name
trade = 116 ∷ 114 ∷ 97 ∷ 100 ∷ 101 ∷ []

abbrev pub price_name : Name
price_name = 112 ∷ 114 ∷ 105 ∷ 99 ∷ 101 ∷ []

abbrev pub price : FieldDescriptor
price = record { name = price_name; offset = 1; bit_width = 64; data_type = uint64 }

abbrev pub size_name : Name
size_name = 115 ∷ 105 ∷ 122 ∷ 101 ∷ []

abbrev pub size : FieldDescriptor
size = record { name = size_name; offset = 0; bit_width = 8; data_type = uint64 }

abbrev empty : SchemaRegistry
empty = record { schemas = [] }

-- The price is found in a registry that was empty.
register_schema-get_field_example :
    get_field trade price_name (Registry.register_schema trade (size ∷ price ∷ []) empty)
    ≡ some price
unfolding first_named Registry.has_schema find name_eq
register_schema-get_field_example =
    register_schema-get_field trade price_name trade (size ∷ price ∷ []) empty

abbrev pub buffers : Buffers
buffers = record {
  field_buffers = replicate 8 (replicate 64 99);
  field_planes_array = replicate 8 none;
}

-- A second schema, and a registration of the first that drops the price.
abbrev between : List Registration
between =
    record { schema = size_name; fields = size ∷ []; row_stride = 1 }
    ∷ record { schema = trade; fields = size ∷ []; row_stride = 3 }
    ∷ []

-- The last registration has a price at offset 1 and no size, and a stride of 12 for 9.
register_schema_again_example :
    let e =
      register_schema trade
        (price ∷ [])
        12
        (register_all between (register_schema trade (size ∷ []) 9 (new_engine buffers))) in
    (get_field trade price_name e.registry ≡ none)
    × (find trade e.schema_metadata ≡ some (record { row_stride = 12; fields = price ∷ [] }))
unfolding first_named name_eq has_schema find
register_schema_again_example =
    register_schema_again trade price_name (size ∷ []) (price ∷ []) 9 12 between
      (new_engine buffers) refl

-- Prices 5, 300 and 7, each behind a size byte.
abbrev trades : Bytes
trades = 1 ∷ 5 ∷ (replicate 7 0 ++ 1 ∷ 44 ∷ 1 ∷ (replicate 6 0 ++ 1 ∷ 7 ∷ replicate 7 0))

abbrev prices : ℕ → ℕ
prices r = get_or (5 ∷ 300 ∷ 7 ∷ []) r 0

trades_rows : (r : ℕ) → r < 3 → load_row trades 0 9 1 r ≡ some (prices r)
unfolding load64 load_le
trades_rows zero h = refl
trades_rows (suc zero) h = refl
trades_rows (suc (suc zero)) h = refl
trades_rows (suc (suc (suc r))) h = absurd (omega arith)

prices_small : (r : ℕ) → r < 3 → IsU64 (prices r)
prices_small zero h = omega arith
prices_small (suc zero) h = omega arith
prices_small (suc (suc zero)) h = omega arith
prices_small (suc (suc (suc r))) h = absurd (omega arith)

trades-HasRows : HasRows trades 9 1 3 prices
trades-HasRows = record { rows = trades_rows; small = prices_small; countable = omega arith }

abbrev kernel : KernelFunc
kernel memory p = (run (comparison_code 6) (enter idle memory p)).reg 0

compiled : compile_comparison device.runtime 6 ≡ some kernel
unfolding compile_comparison
compiled = refl

-- Two of the three prices are greater than 6.
execute-single_field_example :
    (e : ApexEngine) × (execute device trades 3 (
        set_logic device trade price_name 6
          (register_schema trade (size ∷ price ∷ []) 9 (new_engine buffers)))
      ≡ some (2, e))
unfolding count_below first_named name_eq
execute-single_field_example =
    execute-single_field device device-IsPlatform trade price_name (size ∷ price ∷ []) 9 6 buffers
      refl (omega arith) price refl kernel compiled trades 3 prices trades-HasRows
