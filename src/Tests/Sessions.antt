-- ===== src/Tests/Sessions.antt =====
-- The C interface at a concrete session.
use apex_engine.Common.{ℕ, ◌*◌, ◌≡◌, refl, pos, negsuc, List, [], ◌∷◌, some, none}
use apex_engine.Ir.{new_pool}
use apex_engine.Engine.{new_engine}
use apex_engine.Registry.{int32, unnamed}
use apex_engine.Api.{Session, Handle, CField, byte_of, data_type_of, convert_fields, apex_create}
use apex_engine.Tests.Engine.{buffers, price_name, size_name, price, size}

abbrev fresh : ℕ → ℕ
fresh n = 512 * n

-- Two engines.
abbrev two : Session
two = record {
  engines = some (new_engine buffers) ∷ some (new_engine buffers) ∷ [];
  pool = new_pool;
  constants = [];
}

abbrev three : Session
three = (apex_create (some buffers) two).1

abbrev number : Handle → ℕ
number none = 0
number (some h) = h

-- A field of the data type 7, which `DataType` does not name, and one of the data type -1.
abbrev fields : List CField
fields =
    record { name = price_name; offset = 1; bit_width = 64; data_type = pos 7 }
    ∷ record { name = size_name; offset = 0; bit_width = 8; data_type = negsuc 0 }
    ∷ []

types :
    convert_fields 2 fields
    ≡ some (record price { data_type = unnamed 7 } ∷ record size { data_type = unnamed 255 } ∷ [])
unfolding convert_fields data_type_of byte_of
types = refl

named : data_type_of (pos 3) ≡ int32
unfolding data_type_of byte_of
named = refl
