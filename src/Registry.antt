-- ===== src/Registry.antt =====
-- src/core/registry.cpp, include/apex/core/{registry,types}.hpp: the schema registry. A pointer
-- into the registry is the descriptor that it points to, since no entry is changed or removed.
pub mod Laws
use apex_engine.Common.{
  ℕ, Bool, true, false, List, [], ◌∷◌, Option, none, some, Name, Map, find, emplace, ◌>>=◌,
}

-- `enum class DataType : uint8_t`: its five enumerators, and the other bytes, which have no name.
pub data DataType : Type 0 where
  uint64 int64 uint32 int32 float64 : DataType
  unnamed : (byte : ℕ) → DataType

pub record FieldDescriptor : Type 0 where
  pub name : Name
  pub offset : ℕ
  pub bit_width : ℕ
  pub data_type : DataType

abbrev pub FieldMap : Type 0
FieldMap = Map FieldDescriptor

pub record SchemaRegistry : Type 0 where
  pub schemas : Map FieldMap

-- The loop of `register_schema`.
unfoldable pub insert_fields : List FieldDescriptor → FieldMap → FieldMap
insert_fields [] m = m
insert_fields (f ∷ fields) m = insert_fields fields (emplace f.name f m)

unfoldable pub register_schema : Name → List FieldDescriptor → SchemaRegistry → SchemaRegistry
register_schema schema fields r = record {
  schemas = emplace schema (insert_fields fields []) r.schemas;
}

-- `none` is `nullptr`.
unfoldable pub get_field : Name → Name → SchemaRegistry → Option FieldDescriptor
get_field schema field r = do fields ← find schema r.schemas; find field fields

unfoldable pub has_schema : Name → SchemaRegistry → Bool
has_schema schema r = elim (find schema r.schemas) [ none ↦ false | some m ↦ true ]
