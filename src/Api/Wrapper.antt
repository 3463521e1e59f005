-- ===== src/Api/Wrapper.antt =====
-- include/apex/Apex.hpp: the class `Apex` over the C interface. `thrown` is a `std::runtime_error`.
use apex_engine.Common.{
  ℕ, ℤ, pos, negsuc, List, Option, none, some, Name, ◌==◌, if◌then◌else◌, ◌>>=◌,
}
use apex_engine.Gather.{Bytes}
use apex_engine.Ir.{Pointer}
use apex_engine.Engine.{Buffers, Platform}
use apex_engine.Api.{
  Session, Handle, CField, apex_create, apex_destroy, apex_register_schema, apex_set_logic,
  apex_execute, failed,
}

pub data Outcome (A : Type 0) : Type 0 where
  returned : A → Session → Outcome A
  thrown : Session → Outcome A

-- The constructor gives the handle that the object keeps.
unfoldable pub construct : Option Buffers → Session → Outcome ℕ
construct new s =
    let (handle, s') = apex_create new s in
    elim handle [ none ↦ thrown s' | some h ↦ returned h s' ]

unfoldable pub destruct : Handle → Session → Option Session
destruct none s = some s
destruct (some h) s = apex_destroy (some h) s

-- `if (... != 0) throw`
unfoldable pub check_code : ℤ × Session → Outcome ℤ
check_code (pos code, s) = if code == 0 then returned (pos code) s else thrown s
check_code (negsuc code, s) = thrown s

-- `fields` and `size` are `data()` and `size()` of the vector; an empty one's may be null.
unfoldable pub register_schema :
    Handle
    → Name
    → (fields : Option (List CField)) → (size stride : ℕ) → Session
    → Option (Outcome ℤ)
register_schema handle name fields size stride s = do
  result ← apex_register_schema handle (some name) fields size stride s
  some (check_code result)

module _ (pf : Platform) where
  unfoldable pub set_logic :
      (fresh : ℕ → ℕ) → Handle → Name → Pointer → ℤ → Session → Option (Outcome ℤ)
  set_logic fresh handle schema_name ir_root_ptr mode s = do
    result ← apex_set_logic pf fresh handle (some schema_name) ir_root_ptr mode s
    some (check_code result)

  unfoldable pub execute : Handle → Option Bytes → ℕ → Session → Option (Outcome ℕ)
  execute handle data_ptr count s = do
    (result, s') ← apex_execute pf handle data_ptr count s
    some (if result == failed then thrown s' else returned result s')
