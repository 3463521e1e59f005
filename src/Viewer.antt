-- ===== src/Viewer.antt =====
-- include/apex/memory/data_viewer.hpp: `DataViewer`, for the unsigned types that `get_value` is used
-- with. `none` is a fault: a field that is not registered, or a read outside the data.
use apex_engine.Common.{ℕ, Option, Name, ◌>>=◌}
use apex_engine.Gather.{Bytes, load_le}
use apex_engine.Registry.{SchemaRegistry, get_field}

-- `get_value<T>(schema, field)`, where `sizeof(T)` is `width`.
unfoldable pub get_value : (width : ℕ) → Bytes → SchemaRegistry → Name → Name → Option ℕ
get_value width base registry schema field = do
  desc ← get_field schema field registry
  load_le width base desc.offset
