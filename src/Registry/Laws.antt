-- ===== src/Registry/Laws.antt =====
-- What the registry answers after a registration.
use apex_engine.Common.{
  ◌≡◌, arith, true, List, [], ◌∷◌, Option, none, some, Name, find, emplace, find-emplace, name_eq,
  name_eq_refl, if◌then◌else◌, name_eq→eq, ◌&&◌, not,
}
use apex_engine.Registry.{
  FieldDescriptor, FieldMap, SchemaRegistry, insert_fields, register_schema, get_field, has_schema,
}

-- The first descriptor of that name.
unfoldable pub first_named : Name → List FieldDescriptor → Option FieldDescriptor
first_named n [] = none
first_named n (f ∷ fields) = if name_eq f.name n then some f else first_named n fields

find-insert_fields :
    (n : Name) (fields : List FieldDescriptor) (m : FieldMap)
    → find n (insert_fields fields m)
      ≡ (elim (find n m) [ none ↦ first_named n fields | some f ↦ some f ])
unfolding insert_fields first_named
find-insert_fields n [] m = ground arith
find-insert_fields n (f ∷ fields) m = ground (
  arith,
  find-insert_fields n fields (emplace f.name f m),
  find-emplace n f.name f m,
  name_eq→eq f.name n,
)

find-new :
    (n : Name) (fields : List FieldDescriptor)
    → find n (insert_fields fields []) ≡ first_named n fields
unfolding find
find-new n fields = find-insert_fields n fields []

-- Registering a schema name that is new makes its fields found, the first of equal names, and
-- leaves the other schemas alone. Registering a name again changes no answer at all.
pub register_schema-get_field :
    (schema field s : Name) (fields : List FieldDescriptor) (r : SchemaRegistry)
    → get_field s field (register_schema schema fields r) ≡ (
        if name_eq schema s && not (has_schema schema r)
        then first_named field fields
        else get_field s field r)
unfolding register_schema get_field has_schema
register_schema-get_field schema field s fields r = ground (
  arith,
  find-emplace s schema (insert_fields fields []) r.schemas,
  find-new field fields,
  name_eq→eq schema s,
)

pub register_schema-has_schema :
    (schema : Name) (fields : List FieldDescriptor) (r : SchemaRegistry)
    → has_schema schema (register_schema schema fields r) ≡ true
unfolding register_schema has_schema
register_schema-has_schema schema fields r =
    ground
      (arith, find-emplace schema schema (insert_fields fields []) r.schemas, name_eq_refl schema)

pub register_schema-keeps_schema :
    (s schema : Name) (fields : List FieldDescriptor) (r : SchemaRegistry)
    → has_schema s r ≡ true
    → has_schema s (register_schema schema fields r) ≡ true
unfolding register_schema has_schema
register_schema-keeps_schema s schema fields r h =
    ground
      (arith, h, find-emplace s schema (insert_fields fields []) r.schemas, name_eq→eq schema s)
