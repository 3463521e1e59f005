-- ===== src/Api/Handles.antt =====
-- What a call on one handle leaves alone.
use apex_engine.Common.{ℕ, ◌≡◌, ◌≢◌, ℤ, List, Option, none, some, Name}
use apex_engine.Gather.{Bytes}
use apex_engine.Ir.{Pointer}
use apex_engine.Engine.{Buffers, Platform}
use apex_engine.Api.{
  Session, Handle, CField, engine_at, apex_create, apex_destroy, apex_register_schema,
  apex_set_logic, apex_execute,
}

-- One call of the C interface, on the handle; `apex_create` is on none.
pub data Step (pf : Platform) (fresh : ℕ → ℕ) : Handle → Session → Session → Type 0 where
  created : (new : Option Buffers) (s : Session) → Step pf fresh none s (apex_create new s).1
  destroyed : (h : Handle) (s s' : Session) → apex_destroy h s ≡ some s' → Step pf fresh h s s'
  registered :
      (h : Handle) (schema_name : Option Name) (fields : Option (List CField))
      (num_fields stride : ℕ) (code : ℤ) (s s' : Session)
      → apex_register_schema h schema_name fields num_fields stride s ≡ some (code, s')
      → Step pf fresh h s s'
  logic_set :
      (h : Handle) (schema_name : Option Name) (root : Pointer) (mode code : ℤ) (s s' : Session)
      → apex_set_logic pf fresh h schema_name root mode s ≡ some (code, s')
      → Step pf fresh h s s'
  executed :
      (h : Handle) (data_ptr : Option Bytes) (count result : ℕ) (s s' : Session)
      → apex_execute pf h data_ptr count s ≡ some (result, s')
      → Step pf fresh h s s'

-- Calls one after another, none of them on handle `k`.
pub data StepsBeside (pf : Platform) (fresh : ℕ → ℕ) (k : ℕ) : Session → Session → Type 0 where
  no_steps : (s : Session) → StepsBeside pf fresh k s s
  more_steps :
      {h : Handle} {s s' s'' : Session}
      → h ≢ some k
      → Step pf fresh h s s'
      → StepsBeside pf fresh k s' s''
      → StepsBeside pf fresh k s s''

-- The engine at `k` is the same in both.
abbrev Same : ℕ → Session → Session → Type 0
Same k s s' = engine_at k s' ≡ engine_at k s

abbrev get_session : Session → Option Session → Session
get_session s none = s
get_session s (some s') = s'

-- The session of a result.
abbrev after {ℓ} : {A : Type ℓ} → Session → Option (A × Session) → Session
after s none = s
after s (some (a, s')) = s'
