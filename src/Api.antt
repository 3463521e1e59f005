-- ===== src/Api.antt =====
-- src/api/apex_c_api.cpp, the C interface, and the class `Apex` of include/apex/Apex.hpp over it. A
-- handle is an index into the engines that were created, `none` for null. `none` as a result is a
-- fault: a handle that was destroyed, a read outside the caller's data, a call through a null kernel.
-- A name is a C string without its zero. A number of fields for which `reserve` throws is left out.
pub mod Wrapper
pub mod Handles
pub mod Logic
use apex_engine.Common.{
  ℕ, zero, suc, ◌+◌, ◌-◌, ◌%◌, ◌^◌, ℤ, pos, negsuc, Bool, true, false, List, [], ◌∷◌, ◌++◌, Option,
  none, some, Name, length, get_or, set, ◌==◌, if◌then◌else◌, ◌>>=◌,
}
use apex_engine.Word.{two64}
use apex_engine.Gather.{Bytes}
use apex_engine.Registry.{DataType, FieldDescriptor, uint64, int64, uint32, int32, float64, unnamed}
use apex_engine.Ir.{NodePool, Pointer, load_node, add_node, gt_node, const_node}
use apex_engine.Jit.ConstPool.{ConstPool}
use apex_engine.Engine.{
  ApexEngine, Buffers, Platform, ExecutionMode, bit_sliced, scalar, new_engine, register_schema,
  execute,
}
use apex_engine.Engine.Expression.{set_expression}

-- What lives between calls: the engines, `none` for one that was destroyed, and the two pools.
pub record Session : Type 0 where
  pub engines : List (Option ApexEngine)
  pub pool : NodePool
  pub constants : ConstPool

abbrev pub Handle : Type 0
Handle = Option ℕ

-- `apex_field_descriptor_t`
pub record CField : Type 0 where
  pub name : Name
  pub offset : ℕ
  pub bit_width : ℕ
  pub data_type : ℤ

-- What a handle points to.
unfoldable pub engine_at : ℕ → Session → Option ApexEngine
engine_at h s = get_or s.engines h none

unfoldable pub put_engine : ℕ → ApexEngine → Session → Session
put_engine h e s = record s { engines = set s.engines h (some e) }

-- `apex_create`; `new` gives the new engine's buffers, `none` where it throws.
unfoldable pub apex_create : (new : Option Buffers) → Session → Handle × Session
apex_create none s = (none, s)
apex_create (some b) s =
    (some (length s.engines), record s { engines = s.engines ++ some (new_engine b) ∷ [] })

unfoldable pub apex_destroy : Handle → Session → Option Session
apex_destroy none s = some s
apex_destroy (some h) s = do e ← engine_at h s; some (record s { engines = set s.engines h none })

-- `static_cast<uint8_t>` of an `int`
unfoldable pub byte_of : ℤ → ℕ
byte_of (pos n) = n % 256
byte_of (negsuc n) = 255 - n % 256

-- The cast to an enumeration over `uint8_t`: the byte, whether it has a name or not.
unfoldable pub data_type_of : ℤ → DataType
data_type_of type =
    let byte = byte_of type in
    get_or (uint64 ∷ int64 ∷ uint32 ∷ int32 ∷ float64 ∷ []) byte (unnamed byte)

-- The loop over the descriptors; `uint32_t` keeps 32 bits.
unfoldable pub convert_fields : (num_fields : ℕ) → List CField → Option (List FieldDescriptor)
convert_fields zero fields = some []
convert_fields (suc n) [] = none
convert_fields (suc n) (f ∷ fields) = do
  rest ← convert_fields n fields
  some (
      record {
        name = f.name;
        offset = f.offset % 2 ^ 32;
        bit_width = f.bit_width % 2 ^ 32;
        data_type = data_type_of f.data_type;
      }
      ∷ rest)

-- The call on the engine behind `h`.
unfoldable pub call_register :
    ℕ → Name → List CField → (num_fields stride : ℕ) → Session → Option (ℤ × Session)
call_register h schema_name fields num_fields stride s = do
  e ← engine_at h s
  cpp_fields ← convert_fields num_fields fields
  some (pos 0, put_engine h (register_schema schema_name cpp_fields stride e) s)

-- The first null argument returns -1.
unfoldable pub apex_register_schema :
    Handle
    → Option Name
    → Option (List CField)
    → (num_fields stride : ℕ) → Session
    → Option (ℤ × Session)
apex_register_schema none schema_name fields num_fields stride s = some (negsuc 0, s)
apex_register_schema (some h) none fields num_fields stride s = some (negsuc 0, s)
apex_register_schema (some h) (some schema_name) none num_fields stride s = some (negsuc 0, s)
apex_register_schema (some h) (some schema_name) (some fields) num_fields stride s =
    call_register h schema_name fields num_fields stride s

-- `APEX_EXEC_MODE_SCALAR` is 1.
unfoldable pub mode_of : ℤ → ExecutionMode
mode_of (pos mode) = if mode == 1 then scalar else bit_sliced
mode_of (negsuc n) = bit_sliced

module _ (pf : Platform) (fresh : ℕ → ℕ) where
  unfoldable pub apex_set_logic :
      Handle → Option Name → Pointer → ℤ → Session → Option (ℤ × Session)
  apex_set_logic none schema_name ir_root_ptr mode s = some (negsuc 0, s)
  apex_set_logic (some h) none ir_root_ptr mode s = some (negsuc 0, s)
  apex_set_logic (some h) (some schema_name) none mode s = some (negsuc 0, s)
  apex_set_logic (some h) (some schema_name) (some root) mode s = do
    e ← engine_at h s
    (e', pool, constants) ←
        set_expression pf.runtime fresh schema_name (some root) (mode_of mode) s.pool s.constants e
    some (pos 0, put_engine h e' (record s { pool = pool; constants = constants }))

-- `(uint64_t)-1`
abbrev pub failed : ℕ
failed = 0xffff_ffff_ffff_ffff

module _ (pf : Platform) where
  unfoldable pub apex_execute : Handle → Option Bytes → ℕ → Session → Option (ℕ × Session)
  apex_execute none data_ptr count s = some (failed, s)
  apex_execute (some h) none count s = some (failed, s)
  apex_execute (some h) (some bytes) count s = do
    e ← engine_at h s
    (total, e') ← execute pf bytes count e
    some (total, put_engine h e' s)

-- "Field" and a digit, with its zero
abbrev pub field_literal : ℕ → List ℕ
field_literal k = 70 ∷ 105 ∷ 101 ∷ 108 ∷ 100 ∷ (48 + k) ∷ 0 ∷ []

-- `(Field0 + Field1) > Field2`
unfoldable pub apex_create_universal_test_logic : NodePool → Option (Pointer × NodePool)
apex_create_universal_test_logic p = do
  (f0, p0) ← load_node (field_literal 0) p
  (f1, p1) ← load_node (field_literal 1) p0
  let (sum, p2) = add_node f0 f1 p1
  (f2, p3) ← load_node (field_literal 2) p2
  some (gt_node sum f2 p3)

-- `Field0 > 10`
unfoldable pub apex_create_simple_logic : NodePool → Option (Pointer × NodePool)
apex_create_simple_logic p = do
  (f0, p0) ← load_node (field_literal 0) p
  let (c10, p1) = const_node (pos 10) p0
  some (gt_node f0 c10 p1)
