-- ===== src/Engine/Schemas.antt =====
-- Registering a schema under a name that is taken already.
use apex_engine.Common.{
  ℕ, ◌≡◌, refl, ◌∙◌, arith, true, false, List, [], ◌∷◌, some, Name, find, find-assign, name_eq_refl,
  name_eq→eq,
}
use apex_engine.Registry.{FieldDescriptor, get_field, has_schema}
use apex_engine.Registry.Laws.{
  first_named, register_schema-get_field, register_schema-has_schema, register_schema-keeps_schema,
}
use apex_engine.Engine.{ApexEngine, register_schema}

-- The arguments of one call of `register_schema`.
pub record Registration : Type 0 where
  pub schema : Name
  pub fields : List FieldDescriptor
  pub row_stride : ℕ

-- The calls one after another.
unfoldable pub register_all : List Registration → ApexEngine → ApexEngine
register_all [] e = e
register_all (r ∷ rs) e = register_all rs (register_schema r.schema r.fields r.row_stride e)

pub register_all-has_schema :
    (schema : Name) (rs : List Registration) (e : ApexEngine)
    → has_schema schema e.registry ≡ true
    → has_schema schema (register_all rs e).registry ≡ true
unfolding register_all register_schema
register_all-has_schema schema [] e h = h
register_all-has_schema schema (r ∷ rs) e h =
    register_all-has_schema schema rs (register_schema r.schema r.fields r.row_stride e)
      (register_schema-keeps_schema schema r.schema r.fields e.registry h)

-- One more registration changes no field of a schema that is there.
register_schema-keeps_field :
    (schema field : Name) (r : Registration) (e : ApexEngine)
    → has_schema schema e.registry ≡ true
    → get_field schema field (register_schema r.schema r.fields r.row_stride e).registry
      ≡ get_field schema field e.registry
unfolding register_schema
register_schema-keeps_field schema field r e h = ground (
  arith,
  h,
  register_schema-get_field r.schema field schema r.fields e.registry,
  name_eq→eq r.schema schema,
)

register_all-get_field :
    (schema field : Name) (rs : List Registration) (e : ApexEngine)
    → has_schema schema e.registry ≡ true
    → get_field schema field (register_all rs e).registry ≡ get_field schema field e.registry
unfolding register_all register_schema
register_all-get_field schema field [] e h = refl
register_all-get_field schema field (r ∷ rs) e h =
    register_all-get_field schema field rs (register_schema r.schema r.fields r.row_stride e)
      (register_schema-keeps_schema schema r.schema r.fields e.registry h)
    ∙ register_schema-keeps_field schema field r e h

-- In any engine that does not have the schema, let the schema be registered, then any schemas, this one
-- among them or not, and then this one again. The last registration decides the row stride and the
-- metadata, while each field stays the one of the first.
pub register_schema_again :
    (schema field : Name) (fields fields' : List FieldDescriptor) (stride stride' : ℕ)
    (between : List Registration) (e : ApexEngine)
    → has_schema schema e.registry ≡ false
    → let e' =
        register_schema schema fields' stride'
          (register_all between (register_schema schema fields stride e)) in
      (get_field schema field e'.registry ≡ first_named field fields)
      × (find schema e'.schema_metadata ≡ some (record { row_stride = stride'; fields = fields' }))
unfolding register_schema register_all
register_schema_again schema field fields fields' stride stride' between e new =
    let again : Registration = record { schema = schema; fields = fields'; row_stride = stride' } in
    let once = register_schema schema fields stride e in
    let then = register_all between once in
    let there : has_schema schema once.registry ≡ true =
      register_schema-has_schema schema fields e.registry in
    (
      register_schema-keeps_field schema field again then
            (register_all-has_schema schema between once there)
          ∙ register_all-get_field schema field between once there
          ∙ register_schema-get_field schema field schema fields e.registry
          ∙ rw (name_eq_refl schema, new) refl,
      find-assign schema schema (record { row_stride = stride'; fields = fields' })
            then.schema_metadata
          ∙ rw (name_eq_refl schema) refl,
    )
